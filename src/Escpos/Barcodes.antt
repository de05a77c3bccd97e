-- ===== src/Escpos/Barcodes.antt =====
-- A barcode command is read back as the data it was made of (protocols/src/escpos_commands.rs).
use kiln_print.Prelude.{
  ℕ, ◌+◌, ◌*◌, ◌≡◌, ◌≤◌, refl, ap, sym, ◌∙◌, Bool, true, false, Option, none, some, List, [], ◌∷◌,
  ◌++◌, inl, inr, arith, length, ◌==◌, ==_iff, if◌then◌else◌, Bool-cases,
}
use kiln_print.Escpos.{
  code128, gs, as_u8, brace, escape_braces, barcode_data, barcode_header, barcode,
}

abbrev cons_read : ℕ → Option (List ℕ) → Option (List ℕ)
cons_read b none = none
cons_read b (some bs) = some (b ∷ bs)

-- How a printer reads CODE128 data in code set B: a pair of braces is a brace, and any other byte
-- after a brace is a function code, which is not data. `true` says that a brace came just before.
unfoldable pub read_code128 : Bool → List ℕ → Option (List ℕ)
read_code128 true [] = none
read_code128 false [] = some []
read_code128 true (b ∷ bs) =
    let rest = read_code128 false bs in if b == brace then cons_read brace rest else none
read_code128 false (b ∷ bs) = elim (b == brace) [
  | true ↦ read_code128 true bs
  | false ↦ cons_read b (read_code128 false bs)
]

read-escape : (bytes : List ℕ) → read_code128 false (escape_braces bytes) ≡ some bytes
unfolding read_code128 escape_braces
read-escape [] = refl
read-escape (b ∷ bs) = elim (Bool-cases (b == brace)) [
  | inl t ↦
      let same : b ≡ brace = (==_iff b brace).0 t in
      rw (t, escape_braces)
        (ap (cons_read brace) (read-escape bs) ∙ ap (λ x. some (x ∷ bs)) (sym same))
  | inr f ↦ rw (f, escape_braces) (rw (f, read_code128) (ap (cons_read b) (read-escape bs)))
]

length-escape : (bytes : List ℕ) → length (escape_braces bytes) ≤ length bytes * 2
unfolding escape_braces
length-escape [] = omega arith
length-escape (b ∷ bs) = elim (Bool-cases (b == brace)) [
  | inl t ↦ rw (t, escape_braces) (omega (arith, length-escape bs))
  | inr f ↦ rw (f, escape_braces) (omega (arith, length-escape bs))
]

-- The command of a CODE128 barcode of up to 126 bytes announces exactly the bytes that follow, in
-- code set B, and a printer reads them back as the data, with no function code among them.
pub barcode-code128 :
    (bytes : List ℕ) (height bars : ℕ) (hri : Bool)
    → length bytes ≤ 126
    → (payload : List ℕ) × (barcode code128 bytes height bars hri
        ≡ barcode_header height bars hri
          ++ gs ∷ 107 ∷ 73 ∷ (length payload + 2) ∷ brace ∷ 66 ∷ payload)
      × (read_code128 false payload ≡ some bytes)
unfolding barcode barcode_data
barcode-code128 bytes height bars hri h =
    let exact : as_u8 (length (brace ∷ 66 ∷ escape_braces bytes))
        ≡ length (escape_braces bytes) + 2 =
      omega (arith, h, length-escape bytes) in
    (
      escape_braces bytes,
      ap
          (λ n.
            barcode_header height bars hri ++ gs ∷ 107 ∷ 73 ∷ n ∷ brace ∷ 66 ∷ escape_braces bytes)
          exact,
      read-escape bytes,
    )
