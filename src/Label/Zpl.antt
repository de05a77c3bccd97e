-- ===== src/Label/Zpl.antt =====
-- ZPL II: protocols/src/label/zpl.rs. The text of the label; its bytes are its UTF-8.
pub mod Fields
pub mod Commands
use Prim.Native.Char.{code}
use kiln_print.Prelude.{
  ℕ, zero, suc, min, max, String, Bool, true, false, Option, none, some, List, [], ◌∷◌, ◌||◌, ltb,
  ◌==◌, if◌then◌else◌, unwrap_or, append, concat, show, is_some,
}
use kiln_print.Escpos.{
  Symbology, code128, code39, ean13, ean8, upc_a, itf, QrErrorCorrection, level_l, level_m, level_q,
  level_h,
}
use kiln_print.Label.{
  Floats, LabelElement, text_element, barcode_element, qr_element, data_matrix_element, box_element,
  raw_element, LabelDocument,
}
use kiln_print.Label.Barcode.{quarter_turns, barcode_payload}

abbrev pub orientation : ℕ → String
orientation rotation =
    let turns = quarter_turns rotation in
    if turns == 0 then "N" else if turns == 1 then "R" else if turns == 2 then "I" else "B"

-- Field data for `^FH^FD`.
unfoldable pub escape : ℕ → String → String → String
unfolding append
escape c one rest =
    if c == b'_'
    then append "_5F" rest
    else if c == b'^'
    then append "_5E" rest
    else if c == b'~'
    then append "_7E" rest
    else if (c == 13) || (c == 10)
    then append " " rest
    else append one rest

unfoldable pub field : String → String
unfolding escape
field String.[] = String.[]
field (String.◌∷◌ c s) = escape (code c) (String.◌∷◌ c String.[]) (field s)

-- `replace('>', ">0")`.
unfoldable pub escape_invocation : String → String
unfolding append
escape_invocation String.[] = String.[]
escape_invocation (String.◌∷◌ c s) =
    let rest = escape_invocation s in if code c == b'>' then append ">0" rest else String.◌∷◌ c rest

abbrev pub newline : String
newline = "\n"

-- `{darkness:02}`: two digits at least.
abbrev pub two_digits : ℕ → String
two_digits n = if ltb n 10 then append "0" (show n) else show n

abbrev pub level_letter : QrErrorCorrection → String
level_letter level_l = "L"
level_letter level_m = "M"
level_letter level_q = "Q"
level_letter level_h = "H"

abbrev pub readable_letter : Bool → String
readable_letter true = "Y"
readable_letter false = "N"

abbrev pub barcode_command : Symbology → String → String → String → List String
barcode_command code128 o h hr = "^BC" ∷ o ∷ "," ∷ h ∷ "," ∷ hr ∷ ",N,N" ∷ []
barcode_command code39 o h hr = "^B3" ∷ o ∷ ",N," ∷ h ∷ "," ∷ hr ∷ ",N" ∷ []
barcode_command ean13 o h hr = "^BE" ∷ o ∷ "," ∷ h ∷ "," ∷ hr ∷ ",N" ∷ []
barcode_command ean8 o h hr = "^B8" ∷ o ∷ "," ∷ h ∷ "," ∷ hr ∷ ",N" ∷ []
barcode_command upc_a o h hr = "^BU" ∷ o ∷ "," ∷ h ∷ "," ∷ hr ∷ ",N,Y" ∷ []
barcode_command itf o h hr = "^B2" ∷ o ∷ "," ∷ h ∷ "," ∷ hr ∷ ",N,N" ∷ []

unfoldable pub zpl_payload : Symbology → String → String
unfolding barcode_payload escape_invocation
zpl_payload code128 s = escape_invocation (barcode_payload code128 s)
zpl_payload symbology s = barcode_payload symbology s

abbrev pub darkness_line : Option ℕ → List String
darkness_line none = []
darkness_line (some d) = "~SD" ∷ two_digits d ∷ newline ∷ []

-- `clamp(2, 14)`.
abbrev pub speed_line : Option ℕ → List String
speed_line none = []
speed_line (some s) = "^PR" ∷ show (min (max s 2) 14) ∷ newline ∷ []

module _ {F : Type 0} (floats : Floats F) (label : LabelDocument F) where
  abbrev pub of : F → ℕ
  of mm = floats.dots label.dpi mm

  abbrev pub at_least_one : F → ℕ
  at_least_one mm = max (of mm) 1

  unfoldable pub encode_element : LabelElement F → String
  encode_element (text_element x y content height rotation font) =
      let h = show (at_least_one height) in
      concat (
        "^FO"
        ∷ show (of x)
        ∷ ","
        ∷ show (of y)
        ∷ "^A"
        ∷ unwrap_or font "0"
        ∷ orientation rotation
        ∷ ","
        ∷ h
        ∷ ","
        ∷ h
        ∷ "^FH^FD"
        ∷ field content
        ∷ "^FS"
        ∷ newline
        ∷ [])
  encode_element (barcode_element x y symbology content height bars readable rotation) =
      let h = show (at_least_one height) in
      concat (
        "^FO"
        ∷ show (of x)
        ∷ ","
        ∷ show (of y)
        ∷ "^BY"
        ∷ show bars
        ∷ ",3,"
        ∷ h
        ∷ concat (barcode_command symbology (orientation rotation) h (readable_letter readable))
        ∷ "^FH^FD"
        ∷ field (zpl_payload symbology content)
        ∷ "^FS"
        ∷ newline
        ∷ [])
  encode_element (qr_element x y content magnification level) = concat (
      "^FO"
      ∷ show (of x)
      ∷ ","
      ∷ show (of y)
      ∷ "^BQN,2,"
      ∷ show magnification
      ∷ "^FH^FD"
      ∷ level_letter level
      ∷ "A,"
      ∷ field content
      ∷ "^FS"
      ∷ newline
      ∷ [])
  encode_element (data_matrix_element x y content size) = concat (
      "^FO"
      ∷ show (of x)
      ∷ ","
      ∷ show (of y)
      ∷ "^BXN,"
      ∷ show size
      ∷ ",200^FH^FD"
      ∷ field content
      ∷ "^FS"
      ∷ newline
      ∷ [])
  encode_element (box_element x y width height thickness) =
      let t = at_least_one thickness in
      concat (
        "^FO"
        ∷ show (of x)
        ∷ ","
        ∷ show (of y)
        ∷ "^GB"
        ∷ show (max (at_least_one width) t)
        ∷ ","
        ∷ show (max (at_least_one height) t)
        ∷ ","
        ∷ show t
        ∷ "^FS"
        ∷ newline
        ∷ [])
  encode_element (raw_element content) = concat (content ∷ newline ∷ [])

  unfoldable pub encode_elements : List (LabelElement F) → String
  encode_elements [] = String.[]
  encode_elements (e ∷ es) = append (encode_element e) (encode_elements es)

  unfoldable pub encode : String
  encode = concat (
      "^XA"
      ∷ newline
      ∷ "^CI28"
      ∷ newline
      ∷ "^PW"
      ∷ show (of label.width_mm)
      ∷ newline
      ∷ "^LL"
      ∷ show (of label.height_mm)
      ∷ newline
      ∷ "^LH0,0"
      ∷ newline
      ∷ concat (darkness_line label.darkness)
      ∷ concat (speed_line label.speed)
      ∷ encode_elements label.elements
      ∷ "^XZ"
      ∷ newline
      ∷ [])
