-- ===== src/Escpos.antt =====
-- The commands of ESC/POS printers, byte by byte: protocols/src/escpos_commands.rs, and the
-- symbologies of print-core/src/model/label.rs. Data is the list of its bytes.
pub mod Barcodes
use Prim.Native.Nat.{bit_and}
use kiln_print.Prelude.{
  ℕ, ◌+◌, ◌*◌, ◌/◌, ◌%◌, ◌^◌, min, String, Bool, true, false, Option, none, some, List, [], ◌∷◌,
  ◌++◌, length, ◌==◌, str_eq, if◌then◌else◌,
}

pub data Symbology : Type 0 where
  code128 code39 ean13 ean8 upc_a itf : Symbology

pub data QrErrorCorrection : Type 0 where
  level_l level_m level_q level_h : QrErrorCorrection

pub data TextAlignment : Type 0 where
  align_left align_center align_right : TextAlignment

abbrev esc : ℕ
esc = 0x1B

abbrev pub gs : ℕ
gs = 0x1D

-- `u8::from`, and `as u8`.
abbrev pub byte_of : Bool → ℕ
byte_of true = 1
byte_of false = 0

abbrev pub as_u8 : ℕ → ℕ
as_u8 n = n % 2 ^ 8

abbrev pub initialize : List ℕ
initialize = esc ∷ 64 ∷ []

abbrev alignment_of : TextAlignment → ℕ
alignment_of align_left = 0
alignment_of align_center = 1
alignment_of align_right = 2

abbrev pub align : TextAlignment → List ℕ
align alignment = esc ∷ 97 ∷ alignment_of alignment ∷ []

abbrev pub bold : Bool → List ℕ
bold on = esc ∷ 69 ∷ byte_of on ∷ []

abbrev pub underline : Bool → List ℕ
underline on = esc ∷ 45 ∷ byte_of on ∷ []

-- `(w << 4) | h`: the two bits do not overlap.
abbrev pub size : Bool → Bool → List ℕ
size double_width double_height = gs ∷ 33 ∷ (byte_of double_width * 16 + byte_of double_height) ∷ []

abbrev pub invert : Bool → List ℕ
invert on = gs ∷ 66 ∷ byte_of on ∷ []

abbrev pub small_font : Bool → List ℕ
small_font on = esc ∷ 77 ∷ byte_of on ∷ []

abbrev pub code_table : ℕ → List ℕ
code_table n = esc ∷ 116 ∷ n ∷ []

unfoldable pub code_table_for : String → Option ℕ
code_table_for encoding =
    if str_eq encoding "IBM437"
    then some 0
    else if str_eq encoding "IBM850"
    then some 2
    else if str_eq encoding "windows-1252"
    then some 16
    else if str_eq encoding "IBM866"
    then some 17
    else if str_eq encoding "IBM858"
    then some 19
    else none

abbrev pub feed : ℕ → List ℕ
feed lines = esc ∷ 100 ∷ lines ∷ []

abbrev pub cut : Bool → ℕ → List ℕ
cut is_partial feed_lines = gs ∷ 86 ∷ (if is_partial then 66 else 65) ∷ feed_lines ∷ []

abbrev pub drawer : ℕ → List ℕ
drawer pin = esc ∷ 112 ∷ min pin 1 ∷ 25 ∷ 250 ∷ []

abbrev pub brace : ℕ
brace = 123

-- `data.replace('{', "{{")`.
unfoldable pub escape_braces : List ℕ → List ℕ
escape_braces [] = []
escape_braces (b ∷ bs) =
    let rest = escape_braces bs in if b == brace then brace ∷ brace ∷ rest else b ∷ rest

abbrev pub barcode_kind : Symbology → ℕ
barcode_kind upc_a = 65
barcode_kind ean13 = 67
barcode_kind ean8 = 68
barcode_kind code39 = 69
barcode_kind itf = 70
barcode_kind code128 = 73

unfoldable pub barcode_data : Symbology → List ℕ → List ℕ
unfolding escape_braces
barcode_data code128 bytes = brace ∷ 66 ∷ escape_braces bytes
barcode_data _ bytes = bytes

abbrev pub barcode_header : ℕ → ℕ → Bool → List ℕ
barcode_header height bars hri =
    gs ∷ 104 ∷ height ∷ gs ∷ 119 ∷ bars ∷ gs ∷ 72 ∷ (if hri then 2 else 0) ∷ []

unfoldable pub barcode : Symbology → List ℕ → ℕ → ℕ → Bool → List ℕ
unfolding barcode_data
barcode symbology bytes height bars hri =
    let payload = barcode_data symbology bytes in
    barcode_header height bars hri
    ++ gs ∷ 107 ∷ barcode_kind symbology ∷ as_u8 (length payload) ∷ payload

abbrev level_of : QrErrorCorrection → ℕ
level_of level_l = 48
level_of level_m = 49
level_of level_q = 50
level_of level_h = 51

-- The low byte and the next of the length.
unfoldable pub qr_function : ℕ → ℕ → List ℕ → List ℕ
qr_function cn fn params =
    let len = length params + 2 in
    gs ∷ 40 ∷ 107 ∷ as_u8 len ∷ as_u8 (len / 2 ^ 8) ∷ cn ∷ fn ∷ params

unfoldable pub qr : List ℕ → ℕ → QrErrorCorrection → List ℕ
unfolding qr_function
qr bytes module_size level =
    qr_function 49 65 (50 ∷ 0 ∷ [])
    ++ qr_function 49 67 (module_size ∷ [])
    ++ qr_function 49 69 (level_of level ∷ [])
    ++ qr_function 49 80 (48 ∷ bytes)
    ++ qr_function 49 81 (48 ∷ [])

unfoldable pub raster : ℕ → ℕ → List ℕ → List ℕ
raster width_bytes height bits =
    gs
    ∷ 118
    ∷ 48
    ∷ 0
    ∷ as_u8 width_bytes
    ∷ as_u8 (width_bytes / 2 ^ 8)
    ∷ as_u8 height
    ∷ as_u8 (height / 2 ^ 8)
    ∷ bits
