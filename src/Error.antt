-- ===== src/Error.antt =====
-- print-core/src/error.rs: the error model. A message is the list of its literal pieces and format
-- arguments, in order; `details` is a JSON object, as the list of its fields.
pub mod Names
use kiln_print.Prelude.{
  ℕ, ◌≡◌, refl, ◌⊎◌, inl, inr, String, String-discrete, ℕ_discrete, Bool, true, false, Option, none,
  some, List, [], ◌∷◌, arith,
}

pub data ErrorCode : Type 0 where
  printer_not_found printer_offline printer_busy paper_out paper_jam access_denied : ErrorCode
  client_not_trusted authentication_required invalid_payload payload_too_large : ErrorCode
  unsupported_document unsupported_operation unsupported_protocol_version print_failed : ErrorCode
  spooler_error connection_error timeout queue_full rate_limited job_not_found : ErrorCode
  invalid_job_state internal_error : ErrorCode

unfoldable pub ErrorCode-discrete : Discrete ErrorCode
ErrorCode-discrete = hlevel

unfoldable pub default_recoverable : ErrorCode → Bool
default_recoverable printer_offline = true
default_recoverable printer_busy = true
default_recoverable paper_out = true
default_recoverable paper_jam = true
default_recoverable connection_error = true
default_recoverable timeout = true
default_recoverable queue_full = true
default_recoverable rate_limited = true
default_recoverable _ = false

-- A piece of a message, or a JSON value. A job id is printed as a UUID.
pub data Value : Type 0 where
  text : String → Value
  number : ℕ → Value
  uuid : ℕ → Value
  texts : List String → Value
  numbers : List ℕ → Value

unfoldable pub Value-discrete : Discrete Value
Value-discrete = hlevel (ℕ_discrete, String-discrete)

abbrev pub Message : Type 0
Message = List Value

abbrev pub Details : Type 0
Details = List (String × Value)

pub record PrintError : Type 0 where
  pub error_code : ErrorCode
  pub message : Message
  pub job_id : Option ℕ
  pub printer_id : Option String
  pub recoverable : Bool
  pub details : Option Details

unfoldable pub PrintError-discrete : Discrete PrintError
PrintError-discrete = hlevel (ErrorCode-discrete, Value-discrete, ℕ_discrete, String-discrete)

pub data Result {ℓ} (A : Type ℓ) : Type ℓ where
  ok : A → Result A
  err : PrintError → Result A

pub Result-cases {ℓ} :
    {A : Type ℓ} (r : Result A) → ((a : A) × (r ≡ ok a)) ⊎ ((e : PrintError) × (r ≡ err e))
Result-cases (ok a) = inl (a, refl)
Result-cases (err e) = inr (e, refl)

infixl 5 ◌>>=◌
abbrev pub ◌>>=◌ {ℓ κ} : {A : Type ℓ} {B : Type κ} → Result A → (A → Result B) → Result B
err failure >>= next = err failure
ok value >>= next = next value

infixl 5 ◌>>◌
abbrev pub ◌>>◌ {ℓ} : {B : Type ℓ} → Result (Unit {0}) → Result B → Result B
m >> next = m >>= λ u. next

-- `Option::ok_or_else`.
abbrev pub ok_or {ℓ} : {A : Type ℓ} → Option A → PrintError → Result A
ok_or none e = err e
ok_or (some a) e = ok a

-- What succeeded as a whole succeeded in each part.
pub chain-ok :
    {A B : Type 0} (r : Result A) (next : A → Result B) (b : B)
    → (r >>= next) ≡ ok b
    → (a : A) × (r ≡ ok a) × (next a ≡ ok b)
chain-ok (ok a) next b h = (a, refl, h)
chain-ok (err e) next b h = absurd (ground (arith, h))

pub ok_or-ok : {A : Type 0} (o : Option A) (e : PrintError) (a : A) → ok_or o e ≡ ok a → o ≡ some a
ok_or-ok none e a h = absurd (ground (arith, h))
ok_or-ok (some b) e a h = ground (arith, h)

-- `Result::map_err`.
abbrev pub map_err {ℓ} : {A : Type ℓ} → Result A → (PrintError → PrintError) → Result A
map_err (ok a) f = ok a
map_err (err e) f = err (f e)

unfoldable pub new : ErrorCode → Message → PrintError
unfolding default_recoverable
new code message = record {
  error_code = code;
  message = message;
  job_id = none;
  printer_id = none;
  recoverable = default_recoverable code;
  details = none;
}

-- The context goes to the log only.
unfoldable pub internal : PrintError
unfolding new
internal = new internal_error (text "internal agent error" ∷ [])

unfoldable pub with_job : PrintError → ℕ → PrintError
with_job e job_id = record e { job_id = some job_id }

unfoldable pub with_printer : PrintError → String → PrintError
with_printer e printer_id = record e { printer_id = some printer_id }

unfoldable pub with_details : PrintError → Details → PrintError
with_details e details = record e { details = some details }

unfoldable pub with_recoverable : PrintError → Bool → PrintError
with_recoverable e recoverable = record e { recoverable = recoverable }

unfoldable pub invalid_payload_error : Message → PrintError
unfolding new
invalid_payload_error message = new invalid_payload message

unfoldable pub printer_not_found_error : String → PrintError
unfolding new
printer_not_found_error printer =
    new printer_not_found (text "printer '" ∷ text printer ∷ text "' was not found" ∷ [])

unfoldable pub job_not_found_error : ℕ → PrintError
unfolding new with_job
job_not_found_error id =
    with_job (new job_not_found (text "job " ∷ uuid id ∷ text " was not found" ∷ [])) id
