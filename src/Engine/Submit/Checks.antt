-- ===== src/Engine/Submit/Checks.antt =====
-- The checks that a request passes before anything is rendered: `validate_idempotency_key`,
-- `sanitise_job_name`, `PrinterScope::allows` and the first part of `prepare`
-- (print-core/src/engine/mod.rs).
use Prim.Native.Char.{code}
use kiln_print.Prelude.{
  ℕ, ◌+◌, ◌≡◌, ◌≤◌, ◌↔◌, String, Bool, true, false, not, ◌&&◌, ◌||◌, [], ◌∷◌, any, arith, ltb, leb,
  ◌==◌, str_eq, if◌then◌else◌,
}
use kiln_print.Error
use kiln_print.Error.{
  Result, ok, err, text, number, invalid_payload_error, with_details, payload_too_large,
}
use kiln_print.Printer.{Printer}
use kiln_print.Engine.Submit.Types.{EngineConfig, PrinterScope, everywhere, only, Document}

-- `str::len` counts bytes of UTF-8.
abbrev utf8_len : ℕ → ℕ
utf8_len c = if ltb c 128 then 1 else if ltb c 2048 then 2 else if ltb c 65536 then 3 else 4

abbrev pub byte_len : String → ℕ
byte_len String.[] = 0
byte_len (String.◌∷◌ c s) = utf8_len (code c) + byte_len s

abbrev pub all_chars : (ℕ → Bool) → String → Bool
all_chars p String.[] = true
all_chars p (String.◌∷◌ c s) = p (code c) && all_chars p s

-- `char::is_ascii_graphic`.
abbrev pub is_graphic : ℕ → Bool
is_graphic c = leb 33 c && leb c 126

unfoldable pub validate_idempotency_key : String → Result (Unit {0})
unfolding invalid_payload_error
validate_idempotency_key key =
    if (byte_len key == 0) || ltb 128 (byte_len key) || not (all_chars is_graphic key)
    then err (
        invalid_payload_error (text "idempotencyKey must be 1-128 printable ASCII characters" ∷ []))
    else ok tt

-- `u8::to_ascii_lowercase`, and `str::eq_ignore_ascii_case`.
abbrev pub ascii_lower : ℕ → ℕ
ascii_lower c = if leb 65 c && leb c 90 then c + 32 else c

abbrev pub eq_ignore_ascii_case : String → String → Bool
eq_ignore_ascii_case String.[] String.[] = true
eq_ignore_ascii_case (String.◌∷◌ c s) (String.◌∷◌ d t) =
    (ascii_lower (code c) == ascii_lower (code d)) && eq_ignore_ascii_case s t
eq_ignore_ascii_case _ _ = false

abbrev pub allows : PrinterScope → Printer → Bool
allows everywhere printer = true
allows (only entries) printer =
    any (λ e. str_eq e printer.id || eq_ignore_ascii_case e printer.name) entries

-- Size and copies, in this order.
unfoldable pub check_request : {C : Type 0} → EngineConfig → Document C → ℕ → Result (Unit {0})
unfolding invalid_payload_error Error.new with_details
check_request config document copies =
    if document.size_bytes == 0
    then err (invalid_payload_error (text "document is empty" ∷ []))
    else if ltb config.max_document_bytes document.size_bytes
    then err (
        with_details
          (Error.new payload_too_large (
            text "document is "
            ∷ number document.size_bytes
            ∷ text " bytes; the limit is "
            ∷ number config.max_document_bytes
            ∷ text " bytes"
            ∷ []))
          (("sizeBytes", number document.size_bytes)
            ∷ ("limitBytes", number config.max_document_bytes)
            ∷ []))
    else if (copies == 0) || ltb config.max_copies copies
    then err (
        invalid_payload_error
          (text "copies must be between 1 and " ∷ number config.max_copies ∷ []))
    else ok tt

-- A request passes exactly if its document is neither empty nor larger than the limit, and its copies
-- are between one and the limit.
pub check_request_iff :
    {C : Type 0} (config : EngineConfig) (document : Document C) (copies : ℕ)
    → (check_request config document copies ≡ ok tt) ↔ (
        (1 ≤ document.size_bytes)
        × (document.size_bytes ≤ config.max_document_bytes)
        × (1 ≤ copies)
        × (copies ≤ config.max_copies))
unfolding check_request
check_request_iff config document copies = ground arith
