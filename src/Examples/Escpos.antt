-- ===== src/Examples/Escpos.antt =====
-- ESC/POS commands, byte by byte (protocols/src/escpos_commands.rs).
use kiln_print.Prelude.{ℕ, ◌+◌, ◌≡◌, refl, arith, true, false, some, List, [], ◌∷◌, ◌++◌, length}
use kiln_print.Escpos.{code128, align, align_center, size, gs, brace, barcode, barcode_header}
use kiln_print.Escpos.Barcodes.{read_code128, barcode-code128}

-- `A{1`.
abbrev content : List ℕ
content = 65 ∷ 123 ∷ 49 ∷ []

centred : align align_center ≡ 0x1B ∷ 97 ∷ 1 ∷ []
centred = refl

doubled : size true true ≡ 0x1D ∷ 33 ∷ 0x11 ∷ []
doubled = refl

golden :
    barcode code128 content 80 3 true
    ≡ 0x1D ∷ 104 ∷ 80 ∷ 0x1D ∷ 119 ∷ 3 ∷ 0x1D ∷ 72 ∷ 2 ∷ 0x1D ∷ 107 ∷ 73 ∷ 6 ∷ 123 ∷ 66 ∷ 65 ∷ 123
      ∷ 123 ∷ 49 ∷ []
unfolding barcode
golden = refl

barcode-code128_example :
    (payload : List ℕ) × (barcode code128 content 80 3 true
      ≡ barcode_header 80 3 true ++ gs ∷ 107 ∷ 73 ∷ (length payload + 2) ∷ brace ∷ 66 ∷ payload)
    × (read_code128 false payload ≡ some content)
barcode-code128_example = barcode-code128 content 80 3 true (omega arith)
