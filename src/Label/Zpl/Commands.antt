-- ===== src/Label/Zpl/Commands.antt =====
-- The commands of a ZPL label are the encoder's (`encode` of protocols/src/label/zpl.rs).
use kiln_print.Prelude.{
  ℕ, zero, suc, ◌+◌, ◌/◌, ◌%◌, ◌≡◌, refl, String, Bool, true, false, Option, none, some, List, [],
  ◌∷◌, arith, ltb, ◌==◌, Bool-cases, inl, inr, unwrap_or, append, concat, digit, show_before, show,
}
use kiln_print.Escpos.{
  Symbology, code128, code39, ean13, ean8, upc_a, itf, QrErrorCorrection, level_l, level_m, level_q,
  level_h,
}
use kiln_print.Label.{
  Floats, LabelElement, text_element, barcode_element, qr_element, data_matrix_element, box_element,
  raw_element, LabelDocument,
}
use kiln_print.Label.Barcode.{quarter_turns}
use kiln_print.Label.Zpl.{
  orientation, field, level_letter, readable_letter, barcode_command, two_digits, darkness_line,
  speed_line, encode_element, encode_elements, encode, at_least_one,
}
use kiln_print.Label.Zpl.Fields.{commands, commands-append, field_lem}

commands-digit : (d : ℕ) → commands (digit d) ≡ 0
unfolding commands
commands-digit zero = refl
commands-digit (suc zero) = refl
commands-digit (suc (suc zero)) = refl
commands-digit (suc (suc (suc zero))) = refl
commands-digit (suc (suc (suc (suc zero)))) = refl
commands-digit (suc (suc (suc (suc (suc zero))))) = refl
commands-digit (suc (suc (suc (suc (suc (suc zero)))))) = refl
commands-digit (suc (suc (suc (suc (suc (suc (suc zero))))))) = refl
commands-digit (suc (suc (suc (suc (suc (suc (suc (suc zero)))))))) = refl
commands-digit (suc (suc (suc (suc (suc (suc (suc (suc (suc d))))))))) = refl

commands-show_before :
    (fuel n : ℕ) (after : String) → commands after ≡ 0 → commands (show_before fuel n after) ≡ 0
unfolding show_before
commands-show_before zero n after h = h
commands-show_before (suc fuel) n after h =
    let h' : commands (append (digit (n % 10)) after) ≡ 0 =
      omega (arith, h, commands-append (digit (n % 10)) after, commands-digit (n % 10)) in
    elim (Bool-cases (ltb n 10)) [
      | inl t ↦ rw (t, show_before) h'
      | inr f ↦
          rw (f, show_before)
            (commands-show_before fuel (n / 10) (append (digit (n % 10)) after) h')
    ]

commands-show : (n : ℕ) → commands (show n) ≡ 0
unfolding show
commands-show n = commands-show_before (suc n) n String.[] (unfold commands in refl)

-- The commands of the parts, together.
abbrev total : List String → ℕ
total [] = 0
total (s ∷ ss) = commands s + total ss

commands-concat : (ss : List String) → commands (concat ss) ≡ total ss
unfolding concat
commands-concat [] = unfold commands in refl
commands-concat (s ∷ ss) = omega (arith, commands-append s (concat ss), commands-concat ss)

commands-orientation : (rotation : ℕ) → commands (orientation rotation) ≡ 0
unfolding commands
commands-orientation rotation = elim (Bool-cases (quarter_turns rotation == 0)) [
  | inl t ↦ rw t refl
  | inr a ↦ elim (Bool-cases (quarter_turns rotation == 1)) [
    | inl t ↦ rw (a, t) refl
    | inr b ↦ elim (Bool-cases (quarter_turns rotation == 2)) [
      | inl t ↦ rw (a, b, t) refl
      | inr c ↦ rw (a, b, c) refl
    ]
  ]
]

commands-level_letter : (l : QrErrorCorrection) → commands (level_letter l) ≡ 0
unfolding commands
commands-level_letter level_l = refl
commands-level_letter level_m = refl
commands-level_letter level_q = refl
commands-level_letter level_h = refl

commands-readable_letter : (b : Bool) → commands (readable_letter b) ≡ 0
unfolding commands
commands-readable_letter true = refl
commands-readable_letter false = refl

commands-field : (s : String) → commands (field s) ≡ 0
commands-field s = (field_lem s).1

commands-barcode :
    (symbology : Symbology) (o h hr : String)
    → commands o ≡ 0
    → commands h ≡ 0
    → commands hr ≡ 0
    → total (barcode_command symbology o h hr) ≡ 1
unfolding commands
commands-barcode code128 o h hr p q r = omega (arith, p, q, r)
commands-barcode code39 o h hr p q r = omega (arith, p, q, r)
commands-barcode ean13 o h hr p q r = omega (arith, p, q, r)
commands-barcode ean8 o h hr p q r = omega (arith, p, q, r)
commands-barcode upc_a o h hr p q r = omega (arith, p, q, r)
commands-barcode itf o h hr p q r = omega (arith, p, q, r)

-- What each element brings, whatever its texts are; a font and a raw element go in as they are.
abbrev pub element_commands : {F : Type 0} → LabelElement F → ℕ
element_commands (text_element x y content height rotation font) = 5 + commands (unwrap_or font "0")
element_commands (barcode_element x y symbology content height bars readable rotation) = 6
element_commands (qr_element x y content magnification level) = 5
element_commands (data_matrix_element x y content size) = 5
element_commands (box_element x y width height thickness) = 3
element_commands (raw_element content) = commands content

abbrev pub elements_commands : {F : Type 0} → List (LabelElement F) → ℕ
elements_commands [] = 0
elements_commands (e ∷ es) = element_commands e + elements_commands es

abbrev pub one_if : Option ℕ → ℕ
one_if none = 0
one_if (some n) = 1

ruleset no_commands =
    (arith, commands-show, commands-field, commands-orientation, commands-level_letter)

commands-two_digits : (d : ℕ) → commands (two_digits d) ≡ 0
unfolding commands
commands-two_digits d = elim (Bool-cases (ltb d 10)) [
  | inl t ↦ rw (t, two_digits) (omega (arith, commands-append "0" (show d), commands-show d))
  | inr f ↦ rw (f, two_digits) (commands-show d)
]

commands-darkness : (d : Option ℕ) → total (darkness_line d) ≡ one_if d
unfolding commands
commands-darkness none = refl
commands-darkness (some d) = omega (arith, commands-two_digits d)

commands-speed : (s : Option ℕ) → total (speed_line s) ≡ one_if s
unfolding commands
commands-speed none = refl
commands-speed (some s) = omega no_commands

module _ {F : Type 0} (floats : Floats F) (label : LabelDocument F) where
  commands-element :
      (e : LabelElement F) → commands (encode_element floats label e) ≡ element_commands e
  unfolding encode_element commands
  commands-element (text_element x y content height rotation font) =
      rw commands-concat (omega no_commands)
  commands-element (barcode_element x y symbology content height bars readable rotation) =
      let h = show (at_least_one floats label height) in
      rw commands-concat (
        omega (
          no_commands,
          commands-concat
              (barcode_command symbology (orientation rotation) h (readable_letter readable)),
          commands-barcode symbology (orientation rotation) h (readable_letter readable)
              (commands-orientation rotation) (commands-show (at_least_one floats label height))
              (commands-readable_letter readable),
        ))
  commands-element (qr_element x y content magnification level) =
      rw commands-concat (omega no_commands)
  commands-element (data_matrix_element x y content size) = rw commands-concat (omega no_commands)
  commands-element (box_element x y width height thickness) = rw commands-concat (omega no_commands)
  commands-element (raw_element content) = rw commands-concat (omega arith)

  commands-elements :
      (es : List (LabelElement F))
      → commands (encode_elements floats label es) ≡ elements_commands es
  unfolding encode_elements
  commands-elements [] = unfold commands in refl
  commands-elements (e ∷ es) = omega (
    arith,
    commands-append (encode_element floats label e) (encode_elements floats label es),
    commands-element e,
    commands-elements es,
  )

-- A label in ZPL has the prefixes of the encoder's own commands, whatever the texts of its elements
-- are: six for the format, one each for the darkness and the speed, three to six for each element,
-- and besides these only those of a font that the label names and of its raw elements.
pub encode-commands :
    {F : Type 0} (floats : Floats F) (label : LabelDocument F)
    → commands (encode floats label)
      ≡ 6 + one_if label.darkness + one_if label.speed + elements_commands label.elements
unfolding encode commands
encode-commands floats label = rw commands-concat (
    omega (
      no_commands,
      commands-elements floats label label.elements,
      commands-concat (darkness_line label.darkness),
      commands-concat (speed_line label.speed),
      commands-darkness label.darkness,
      commands-speed label.speed,
    ))
