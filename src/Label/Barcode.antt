-- ===== src/Label/Barcode.antt =====
-- What the encoders of label languages share: protocols/src/label/mod.rs.
pub mod Laws
pub mod Magnification
use Prim.Native.Char.{code}
use kiln_print.Prelude.{
  ℕ, zero, suc, ◌+◌, ◌-◌, ◌*◌, ◌/◌, ◌%◌, ◌≡◌, refl, ◌≤◌, min, max, String, Bool, true, false, not,
  ◌&&◌, ◌||◌, List, [], ◌∷◌, arith, ltb, leb, ◌==◌, if◌then◌else◌, append, Bool-cases, inl, inr,
}
use kiln_print.Error
use kiln_print.Error.{PrintError, ok, text, unsupported_operation}
use kiln_print.Engine.Submit.Checks.{all_chars, byte_len}
use kiln_print.Engine.Submit.JobNames.{char_len, is_control, take_chars}
use kiln_print.Escpos.{Symbology, code128, code39, ean13, ean8, upc_a, itf}
use kiln_print.Label.{is_digit, is_printable, is_barcode, validate_barcode}

unfoldable pub unsupported : String → String → PrintError
unfolding Error.new
unsupported language what =
    Error.new unsupported_operation
      (text what ∷ text " is not supported by " ∷ text language ∷ text " labels" ∷ [])

abbrev pub quarter_turns : ℕ → ℕ
quarter_turns rotation = rotation / 90 % 4

-- `abs_diff`; one of the differences is 0.
abbrev pub abs_diff : ℕ → ℕ → ℕ
abs_diff a b = (a - b) + (b - a)

abbrev pub scale : ℕ → ℕ → ℕ
scale dpi h = max (h * dpi / 203) 1

abbrev pub magnification : ℕ → ℕ → ℕ → ℕ
magnification max_mult target h = min (max ((target + h / 2) / h) 1) max_mult

-- The best font so far, its magnification and its error.
unfoldable pub better_font : ℕ → ℕ → ℕ → List (String × ℕ) → String × ℕ × ℕ → String × ℕ × ℕ
better_font target dpi max_mult [] best = best
better_font target dpi max_mult ((font, height) ∷ fonts) best =
    let h = scale dpi height in
    let mult = magnification max_mult target h in
    let miss = abs_diff (h * mult) target in
    better_font target dpi max_mult fonts (if leb miss best.2 then (font, mult, miss) else best)

-- A list of fonts has a first one; no font at all is a panic in the code.
unfoldable pub pick_font : String × ℕ → List (String × ℕ) → ℕ → ℕ → ℕ → String × ℕ
unfolding better_font
pick_font first rest target dpi max_mult =
    let best = better_font target dpi max_mult (first ∷ rest) (first.0, 1, 4294967295) in
    (best.0, best.1)

-- The part of the data that goes to the printer, without the check digit. The source counts bytes,
-- which are the characters of data that was validated.
unfoldable pub kept_length : Symbology → String → ℕ
kept_length ean13 s = 12
kept_length ean8 s = 7
kept_length upc_a s = 11
kept_length _ s = char_len s

unfoldable pub barcode_payload : Symbology → String → String
unfolding kept_length take_chars
barcode_payload symbology s = take_chars (min (kept_length symbology s) (char_len s)) s

-- `single_line`: a control character becomes a space.
abbrev pub space : String
space = " "

unfoldable pub single_line : String → String
unfolding append
single_line String.[] = String.[]
single_line (String.◌∷◌ c s) =
    if is_control (code c) then append space (single_line s) else String.◌∷◌ c (single_line s)
