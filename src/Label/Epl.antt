-- ===== src/Label/Epl.antt =====
-- EPL2: protocols/src/label/epl.rs, byte by byte. The encoding of texts in code page 437 is an
-- argument. The sums of a box wrap around at 2^32, as in a release build; a build with overflow
-- checks panics there, which is not modelled. `module_width * 3` fits a byte, as a module is at
-- most 10 dots wide.
pub mod Quoted
pub mod Expressible
use Prim.Native.Char.{code}
use kiln_print.Prelude.{
  ℕ, ◌+◌, ◌*◌, ◌/◌, ◌%◌, ◌^◌, min, max, String, Bool, true, false, Option, none, some, List, [],
  ◌∷◌, ◌++◌, ltb, ◌==◌, if◌then◌else◌, append, concat, show, bytes_of,
}
use kiln_print.Error.{Result, ok, err, ◌>>=◌}
use kiln_print.Escpos.{
  Symbology, code128, code39, ean13, ean8, upc_a, itf, QrErrorCorrection, level_l, level_m, level_q,
  level_h,
}
use kiln_print.Label.{
  Floats, LabelElement, text_element, barcode_element, qr_element, data_matrix_element, box_element,
  raw_element, LabelDocument,
}
use kiln_print.Label.Barcode.{quarter_turns, barcode_payload, pick_font, single_line, unsupported}

-- Resident fonts with heights in dots at 203 dpi.
abbrev pub first_font : String × ℕ
first_font = ("1", 12)

abbrev pub larger_fonts : List (String × ℕ)
larger_fonts = ("2", 16) ∷ ("3", 20) ∷ ("4", 24) ∷ ("5", 48) ∷ []

-- `str::replace` of a character.
unfoldable pub replace_char : ℕ → String → String → String
unfolding append
replace_char m new String.[] = String.[]
replace_char m new (String.◌∷◌ c s) =
    let rest = replace_char m new s in if code c == m then append new rest else String.◌∷◌ c rest

unfoldable pub quoted : String → String
unfolding single_line replace_char
quoted s = replace_char b'"' "\\\"" (replace_char b'\\' "\\\\" (single_line s))

abbrev pub line_of : List String → List ℕ
line_of parts = bytes_of (concat parts) ++ 10 ∷ []

abbrev pub font_of : ℕ → ℕ → Option String → String × ℕ
font_of target dpi (some f) = (f, 1)
font_of target dpi none = pick_font first_font larger_fonts target dpi 9

abbrev pub epl_kind : Symbology → String
epl_kind code128 = "1"
epl_kind code39 = "3"
epl_kind ean13 = "E30"
epl_kind ean8 = "E80"
epl_kind upc_a = "UA0"
epl_kind itf = "2"

-- The width of a wide bar.
abbrev pub wide_bar : Symbology → ℕ → ℕ
wide_bar code39 bars = bars * 3
wide_bar itf bars = bars * 3
wide_bar _ bars = bars

abbrev epl_level : QrErrorCorrection → String
epl_level level_l = "L"
epl_level level_m = "M"
epl_level level_q = "Q"
epl_level level_h = "H"

module _ {F : Type 0} (floats : Floats F) (encode_text : String → Result (List ℕ))
    (label : LabelDocument F) where
  abbrev of : F → ℕ
  of mm = floats.dots label.dpi mm

  abbrev at_least_one : F → ℕ
  at_least_one mm = max (of mm) 1

  -- A command that ends with a quoted text in the printer's code page.
  abbrev pub with_text : List String → String → Result (List ℕ)
  with_text parts content = do
    encoded ← encode_text (quoted content)
    ok (bytes_of (concat parts) ++ encoded ++ b'"' ∷ [])

  unfoldable pub epl_element : LabelElement F → Result (List ℕ)
  epl_element (text_element x y content height rotation font) =
      let (name, mult) = font_of (at_least_one height) label.dpi font in
      with_text
        ("A"
          ∷ show (of x)
          ∷ ","
          ∷ show (of y)
          ∷ ","
          ∷ show (quarter_turns rotation)
          ∷ ","
          ∷ name
          ∷ ","
          ∷ show mult
          ∷ ","
          ∷ show mult
          ∷ ",N,\""
          ∷ [])
        content
  epl_element (barcode_element x y symbology content height bars readable rotation) = ok (
      bytes_of (
        concat (
          "B"
          ∷ show (of x)
          ∷ ","
          ∷ show (of y)
          ∷ ","
          ∷ show (quarter_turns rotation)
          ∷ ","
          ∷ epl_kind symbology
          ∷ ","
          ∷ show bars
          ∷ ","
          ∷ show (wide_bar symbology bars)
          ∷ ","
          ∷ show (at_least_one height)
          ∷ ","
          ∷ (if readable then "B" else "N")
          ∷ ",\""
          ∷ quoted (barcode_payload symbology content)
          ∷ "\""
          ∷ [])))
  epl_element (qr_element x y content magnification level) =
      with_text
        ("b"
          ∷ show (of x)
          ∷ ","
          ∷ show (of y)
          ∷ ",Q,s"
          ∷ show magnification
          ∷ ",e"
          ∷ epl_level level
          ∷ ",\""
          ∷ [])
        content
  epl_element (data_matrix_element x y content size) = err (unsupported "EPL" "Data Matrix")
  epl_element (box_element x y width height thickness) = ok (
      bytes_of (
        concat (
          "X"
          ∷ show (of x)
          ∷ ","
          ∷ show (of y)
          ∷ ","
          ∷ show (at_least_one thickness)
          ∷ ","
          ∷ show ((of x + at_least_one width) % 2 ^ 32)
          ∷ ","
          ∷ show ((of y + at_least_one height) % 2 ^ 32)
          ∷ [])))
  epl_element (raw_element content) = ok (bytes_of content)

  unfoldable pub epl_body : List (LabelElement F) → Result (List ℕ)
  unfolding epl_element
  epl_body [] = ok []
  epl_body (e ∷ es) = do command ← epl_element e; rest ← epl_body es; ok (command ++ 10 ∷ rest)

  abbrev gap_line : Option F → List ℕ
  gap_line none = []
  gap_line (some gap) = line_of ("Q" ∷ show (of label.height_mm) ∷ "," ∷ show (of gap) ∷ [])

  abbrev darkness_line : Option ℕ → List ℕ
  darkness_line none = []
  darkness_line (some d) = line_of ("D" ∷ show (d * 15 / 30) ∷ [])

  abbrev speed_line : Option ℕ → List ℕ
  speed_line none = []
  speed_line (some s) = line_of ("S" ∷ show (min (max s 1) 6) ∷ [])

  unfoldable pub epl_encode : Result (List ℕ)
  unfolding epl_body
  epl_encode = do
    body ← epl_body label.elements
    ok (
        line_of []
        ++ line_of ("N" ∷ [])
        ++ line_of ("I8,0,001" ∷ [])
        ++ line_of ("q" ∷ show (of label.width_mm) ∷ [])
        ++ gap_line label.gap_mm
        ++ darkness_line label.darkness
        ++ speed_line label.speed
        ++ body
        ++ line_of ("P1" ∷ []))
