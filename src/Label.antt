-- ===== src/Label.antt =====
-- Label documents: print-core/src/model/label.rs. Lengths are single-precision numbers: `F` is their
-- type, an argument with the comparisons and the conversion to dots that the code makes.
pub mod Barcode
pub mod Zpl
pub mod Epl
use Prim.Native.Char.{code}
use kiln_print.Prelude.{
  ℕ, ◌*◌, ◌%◌, String, Bool, true, false, not, ◌&&◌, ◌||◌, Option, none, some, List, [], ◌∷◌, any,
  length, ltb, leb, ◌==◌, if◌then◌else◌,
}
use kiln_print.Error.{Result, ok, err, text, Message, invalid_payload_error, ◌>>=◌, ◌>>◌}
use kiln_print.Engine.Submit.Checks.{all_chars, byte_len, is_graphic}
use kiln_print.Escpos.{Symbology, code128, code39, ean13, ean8, upc_a, itf, QrErrorCorrection}

-- `tenths n` is n / 10, and `dots dpi mm` what `LabelDocument::dots` computes.
pub record Floats (F : Type 0) : Type 0 where
  pub le : F → F → Bool
  pub lt : F → F → Bool
  pub tenths : ℕ → F
  pub dots : ℕ → F → ℕ

pub data LabelElement (F : Type 0) : Type 0 where
  text_element : F → F → String → F → ℕ → Option String → LabelElement F
  barcode_element : F → F → Symbology → String → F → ℕ → Bool → ℕ → LabelElement F
  qr_element : F → F → String → ℕ → QrErrorCorrection → LabelElement F
  data_matrix_element : F → F → String → ℕ → LabelElement F
  box_element : F → F → F → F → F → LabelElement F
  raw_element : String → LabelElement F

abbrev pub position : {F : Type 0} → LabelElement F → Option (F × F)
position (text_element x y content height rotation font) = some (x, y)
position (barcode_element x y symbology content height bars readable rotation) = some (x, y)
position (qr_element x y content magnification level) = some (x, y)
position (data_matrix_element x y content size) = some (x, y)
position (box_element x y width height thickness) = some (x, y)
position (raw_element content) = none

pub record LabelDocument (F : Type 0) : Type 0 where
  pub width_mm : F
  pub height_mm : F
  pub dpi : ℕ
  pub language : Option String
  pub gap_mm : Option F
  pub darkness : Option ℕ
  pub speed : Option ℕ
  pub elements : List (LabelElement F)

abbrev pub max_elements : ℕ
max_elements = 500

unfoldable pub check : Bool → String → Result (Unit {0})
unfolding invalid_payload_error
check condition message =
    if condition then ok tt else err (invalid_payload_error (text message ∷ []))

abbrev pub is_digit : ℕ → Bool
is_digit c = leb 48 c && leb c 57

abbrev is_upper : ℕ → Bool
is_upper c = leb 65 c && leb c 90

-- ` -.$/+%`.
abbrev is_code39_sign : ℕ → Bool
is_code39_sign c =
    (c == 32) || (c == 45) || (c == 46) || (c == 36) || (c == 47) || (c == 43) || (c == 37)

abbrev pub is_printable : ℕ → Bool
is_printable c = leb 32 c && leb c 126

unfoldable pub is_barcode : Symbology → String → Bool
is_barcode code128 s = not (byte_len s == 0) && leb (byte_len s) 80 && all_chars is_printable s
is_barcode code39 s =
    not (byte_len s == 0)
    && leb (byte_len s) 80
    && all_chars (λ c. is_upper c || is_digit c || is_code39_sign c) s
is_barcode ean13 s = all_chars is_digit s && ((byte_len s == 12) || (byte_len s == 13))
is_barcode ean8 s = all_chars is_digit s && ((byte_len s == 7) || (byte_len s == 8))
is_barcode upc_a s = all_chars is_digit s && ((byte_len s == 11) || (byte_len s == 12))
is_barcode itf s =
    all_chars is_digit s && not (byte_len s == 0) && (byte_len s % 2 == 0) && leb (byte_len s) 80

-- `{self:?}`.
abbrev symbology_name : Symbology → String
symbology_name code128 = "Code128"
symbology_name code39 = "Code39"
symbology_name ean13 = "Ean13"
symbology_name ean8 = "Ean8"
symbology_name upc_a = "UpcA"
symbology_name itf = "Itf"

unfoldable pub validate_barcode : Symbology → String → Result (Unit {0})
unfolding is_barcode invalid_payload_error
validate_barcode symbology s =
    if is_barcode symbology s
    then ok tt
    else err (
        invalid_payload_error (
          text "'"
          ∷ text s
          ∷ text "' is not valid "
          ∷ text (symbology_name symbology)
          ∷ text " barcode data"
          ∷ []))

abbrev pub is_rotation : ℕ → Bool
is_rotation r = (r == 0) || (r == 90) || (r == 180) || (r == 270)

unfoldable pub validate_rotation : ℕ → Result (Unit {0})
unfolding check
validate_rotation rotation = check (is_rotation rotation) "rotation must be 0, 90, 180 or 270"

-- `Option::is_none_or`.
abbrev pub is_none_or {ℓ} : {A : Type ℓ} → (A → Bool) → Option A → Bool
is_none_or p none = true
is_none_or p (some a) = p a

abbrev between : ℕ → ℕ → ℕ → Bool
between lo hi n = leb lo n && leb n hi

abbrev pub is_font : String → Bool
is_font f = not (byte_len f == 0) && leb (byte_len f) 32 && all_chars is_graphic f

module _ {F : Type 0} (floats : Floats F) where
  open floats use {le, lt, tenths}

  abbrev within : ℕ → ℕ → F → Bool
  within lo hi x = le (tenths lo) x && le x (tenths hi)

  abbrev pub is_inside : LabelDocument F → F × F → Bool
  is_inside label (x, y) =
      le (tenths 0) x && lt x label.width_mm && le (tenths 0) y && lt y label.height_mm

  unfoldable pub validate_content : LabelElement F → Result (Unit {0})
  unfolding check validate_barcode validate_rotation
  validate_content (text_element x y content height rotation font) = do
    check (not (byte_len content == 0) && leb (byte_len content) 1000)
        "text must be 1-1000 characters"
    check (within 5 2000 height) "text heightMm must be between 0.5 and 200"
    validate_rotation rotation
    check (is_none_or is_font font) "font must be 1-32 printable ASCII characters"
  validate_content (barcode_element x y symbology content height bars readable rotation) = do
    validate_barcode symbology content
    check (within 10 3000 height) "barcode heightMm must be between 1 and 300"
    check (between 1 10 bars) "moduleWidth must be between 1 and 10 dots"
    validate_rotation rotation
  validate_content (qr_element x y content magnification level) = do
    check (not (byte_len content == 0) && leb (byte_len content) 2000)
        "QR data must be 1-2000 bytes"
    check (between 1 10 magnification) "magnification must be between 1 and 10"
  validate_content (data_matrix_element x y content size) = do
    check (not (byte_len content == 0) && leb (byte_len content) 1500)
        "Data Matrix data must be 1-1500 bytes"
    check (between 1 20 size) "moduleSize must be between 1 and 20"
  validate_content (box_element x y width height thickness) = do
    check (lt (tenths 0) width && lt (tenths 0) height) "box dimensions must be positive"
    check (lt (tenths 0) thickness) "thicknessMm must be positive"
  validate_content (raw_element content) =
      check (leb (byte_len content) (64 * 1024)) "RAW element is limited to 64 KiB"

  unfoldable pub validate_elements : LabelDocument F → List (LabelElement F) → Result (Unit {0})
  unfolding check validate_content
  validate_elements label [] = ok tt
  validate_elements label (e ∷ es) = do
    check (is_none_or (is_inside label) (position e)) "element position is outside the label"
    validate_content e
    validate_elements label es

  unfoldable pub validate : LabelDocument F → Result (Unit {0})
  unfolding check validate_elements
  validate label = do
    check (within 50 6000 label.width_mm) "label widthMm must be between 5 and 600"
    check (within 50 20000 label.height_mm) "label heightMm must be between 5 and 2000"
    check (between 100 1200 label.dpi) "dpi must be between 100 and 1200"
    check (is_none_or (λ d. leb d 30) label.darkness) "darkness must be between 0 and 30"
    check (is_none_or (between 1 14) label.speed) "speed must be between 1 and 14"
    check (is_none_or (within 0 500) label.gap_mm) "gapMm must be between 0 and 50"
    check (not (length label.elements == 0)) "a label needs at least one element"
    check (leb (length label.elements) max_elements) "a label may have at most 500 elements"
    validate_elements label label.elements
