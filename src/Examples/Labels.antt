-- ===== src/Examples/Labels.antt =====
-- Labels at concrete documents (print-core/src/model/label.rs, protocols/src/label). A length is a
-- number of tenths of a millimetre.
use kiln_print.Prelude.{
  map, ℕ, ◌+◌, ◌*◌, ◌/◌, ◌≡◌, ◌↔◌, ◌≤◌, refl, arith, String, true, none, some, List, [], ◌∷◌, All,
  Memᴰ, ltb, leb, append, bytes_of, codes, concat, show,
}
use kiln_print.Error.{Result, ok}
use kiln_print.Escpos.{ean13, level_m}
use kiln_print.Label.{
  Floats, LabelDocument, text_element, barcode_element, qr_element, box_element, validate,
}
use kiln_print.Label.Barcode.{pick_font, barcode_payload}
use kiln_print.Label.Barcode.{abs_diff}
use kiln_print.Engine.Submit.Checks.{all_chars}
use kiln_print.Label.Barcode.Laws.{height_at, pick_font-least}
use kiln_print.Label.Zpl.{field, encode, encode_element}
use kiln_print.Label.Zpl.Fields.{commands, read_field, flat, field_lem}
use kiln_print.Label.Zpl.Commands.{one_if, elements_commands, encode-commands}
use kiln_print.Label.Epl.{first_font, larger_fonts, quoted, epl_element, epl_encode}
use kiln_print.Label.Epl.Quoted.{on_line, is_on_line, read_quoted, quoted_lem}
use kiln_print.Label.Epl.Expressible.{IsExpressible, epl_encode_iff}

abbrev tenths : Floats ℕ
tenths = record { le = leb; lt = ltb; tenths = λ n. n; dots = λ dpi mm. mm * dpi / 254 }

abbrev label : LabelDocument ℕ
label = record {
  width_mm = 1000;
  height_mm = 500;
  dpi = 203;
  language = none;
  gap_mm = some 30;
  darkness = some 7;
  speed = some 4;
  elements =
      text_element 50 50 "Ship ^XZ~ \"now\"" 50 0 none
      ∷ barcode_element 50 150 ean13 "4006381333931" 100 2 true 90
      ∷ qr_element 700 50 "a_b" 4 level_m
      ∷ box_element 10 10 980 480 3
      ∷ [];
}

accepted : validate tenths label ≡ ok tt
unfolding validate
accepted = refl

golden_text :
    encode_element tenths label (text_element 50 50 "a^b" 50 90 none)
    ≡ "^FO39,39^A0R,39,39^FH^FDa_5Eb^FS\n"
unfolding encode_element concat show field
golden_text = refl

check_digit_is_left_out : barcode_payload ean13 "4006381333931" ≡ "400638133393"
unfolding barcode_payload
check_digit_is_left_out = refl

golden_box :
    epl_element tenths (λ s. ok (bytes_of s)) label (box_element 10 10 980 480 3)
    ≡ ok (bytes_of "X7,7,2,790,390")
unfolding epl_element concat show bytes_of
golden_box = refl

-- A font named `^XZ` would bring a command: nothing in the validation forbids it.
abbrev sneaky : LabelDocument ℕ
sneaky = record label { elements = text_element 50 50 "x" 50 0 (some "^XZ") ∷ [] }

sneaky_is_accepted : validate tenths sneaky ≡ ok tt
unfolding validate
sneaky_is_accepted = refl

encode-commands_example :
    commands (encode tenths label)
    ≡ 6 + one_if label.darkness + one_if label.speed + elements_commands label.elements
encode-commands_example = encode-commands tenths label

font_brings_command : elements_commands sneaky.elements ≡ 6
unfolding commands
font_brings_command = refl

field_lem_example :
    (read_field (field "50 ^ _\n~") ≡ flat "50 ^ _\n~") × (commands (field "50 ^ _\n~") ≡ 0)
field_lem_example = field_lem "50 ^ _\n~"

escaped : field "50 ^ _~" ≡ "50 _5E _5F_7E"
unfolding field
escaped = refl

quoted_lem_example :
    (read_quoted (append (quoted "a\"b\\c\n") (append "\"" "\nP1"))
      ≡ some (map on_line (codes "a\"b\\c\n"), "\nP1"))
    × (all_chars is_on_line (quoted "a\"b\\c\n") ≡ true)
quoted_lem_example = quoted_lem "a\"b\\c\n" "\nP1"

in_quotes : quoted "a\"b\\c" ≡ "a\\\"b\\\\c"
unfolding quoted
in_quotes = refl

pick_font-least_example :
    (f : String × ℕ) × Memᴰ f (first_font ∷ larger_fonts)
    × (m : ℕ) × (pick_font first_font larger_fonts 39 203 9 ≡ (f.0, m))
    × (1 ≤ m)
    × (m ≤ 9)
    × All
        (λ g.
          (n : ℕ)
          → 1 ≤ n
          → n ≤ 9
          → abs_diff (height_at 203 f * m) 39 ≤ abs_diff (height_at 203 g * n) 39)
        (first_font ∷ larger_fonts)
pick_font-least_example =
    pick_font-least first_font larger_fonts 39 203 9 (omega arith) (omega arith)

picked : pick_font first_font larger_fonts 24 203 9 ≡ ("4", 1)
unfolding pick_font
picked = refl

abbrev plain : String → Result (List ℕ)
plain s = ok (bytes_of s)

epl_encode_iff_example :
    ((bytes : List ℕ) × (epl_encode tenths plain label ≡ ok bytes))
    ↔ All (IsExpressible plain) label.elements
epl_encode_iff_example = epl_encode_iff tenths plain label
