-- ===== src/Error/Names.antt =====
-- The wire names of error codes: `ErrorCode::as_str` of print-core/src/error.rs.
use kiln_print.Prelude.{
  String, ◌≡◌, refl, sym, ap, ◌∙◌, str_eq, Option, some, List, [], ◌∷◌, arith, find,
}
use kiln_print.Error.{
  ErrorCode, printer_not_found, printer_offline, printer_busy, paper_out, paper_jam, access_denied,
  client_not_trusted, authentication_required, invalid_payload, payload_too_large,
  unsupported_document, unsupported_operation, unsupported_protocol_version, print_failed,
  spooler_error, connection_error, timeout, queue_full, rate_limited, job_not_found,
  invalid_job_state, internal_error,
}

unfoldable pub as_str : ErrorCode → String
as_str printer_not_found = "PRINTER_NOT_FOUND"
as_str printer_offline = "PRINTER_OFFLINE"
as_str printer_busy = "PRINTER_BUSY"
as_str paper_out = "PAPER_OUT"
as_str paper_jam = "PAPER_JAM"
as_str access_denied = "ACCESS_DENIED"
as_str client_not_trusted = "CLIENT_NOT_TRUSTED"
as_str authentication_required = "AUTHENTICATION_REQUIRED"
as_str invalid_payload = "INVALID_PAYLOAD"
as_str payload_too_large = "PAYLOAD_TOO_LARGE"
as_str unsupported_document = "UNSUPPORTED_DOCUMENT"
as_str unsupported_operation = "UNSUPPORTED_OPERATION"
as_str unsupported_protocol_version = "UNSUPPORTED_PROTOCOL_VERSION"
as_str print_failed = "PRINT_FAILED"
as_str spooler_error = "SPOOLER_ERROR"
as_str connection_error = "CONNECTION_ERROR"
as_str timeout = "TIMEOUT"
as_str queue_full = "QUEUE_FULL"
as_str rate_limited = "RATE_LIMITED"
as_str job_not_found = "JOB_NOT_FOUND"
as_str invalid_job_state = "INVALID_JOB_STATE"
as_str internal_error = "INTERNAL_ERROR"

abbrev all_codes : List ErrorCode
all_codes =
    printer_not_found ∷ printer_offline ∷ printer_busy ∷ paper_out ∷ paper_jam ∷ access_denied
    ∷ client_not_trusted ∷ authentication_required ∷ invalid_payload ∷ payload_too_large
    ∷ unsupported_document ∷ unsupported_operation ∷ unsupported_protocol_version ∷ print_failed
    ∷ spooler_error ∷ connection_error ∷ timeout ∷ queue_full ∷ rate_limited ∷ job_not_found
    ∷ invalid_job_state ∷ internal_error ∷ []

-- The code of a name, as a client reads it back.
abbrev pub code_of : String → Option ErrorCode
code_of name = find (λ code. str_eq (as_str code) name) all_codes

code_of-as_str : (code : ErrorCode) → code_of (as_str code) ≡ some code
unfolding as_str
code_of-as_str printer_not_found = refl
code_of-as_str printer_offline = refl
code_of-as_str printer_busy = refl
code_of-as_str paper_out = refl
code_of-as_str paper_jam = refl
code_of-as_str access_denied = refl
code_of-as_str client_not_trusted = refl
code_of-as_str authentication_required = refl
code_of-as_str invalid_payload = refl
code_of-as_str payload_too_large = refl
code_of-as_str unsupported_document = refl
code_of-as_str unsupported_operation = refl
code_of-as_str unsupported_protocol_version = refl
code_of-as_str print_failed = refl
code_of-as_str spooler_error = refl
code_of-as_str connection_error = refl
code_of-as_str timeout = refl
code_of-as_str queue_full = refl
code_of-as_str rate_limited = refl
code_of-as_str job_not_found = refl
code_of-as_str invalid_job_state = refl
code_of-as_str internal_error = refl

-- Different codes have different names, so a client that reads a name knows the code.
pub as_str_injective : (c d : ErrorCode) → as_str c ≡ as_str d → c ≡ d
as_str_injective c d e =
    let h : some c ≡ some d = sym (code_of-as_str c) ∙ ap code_of e ∙ code_of-as_str d in
    ground arith
