-- ===== src/Engine/Submit/Pools.antt =====
-- What `prepare` of print-core/src/engine/mod.rs meets where it awaits: `blocking`, and the other
-- tasks.
use kiln_print.Prelude.{ℕ, String, Bool, true, false, Option, none, some, List, [], ◌∷◌}
use kiln_print.Error
use kiln_print.Error.{
  PrintError, Result, ok, err, Value, Message, text, texts, uuid, internal, with_printer,
  with_details, invalid_payload_error, access_denied, unsupported_document, unsupported_operation,
}
use kiln_print.Job.{DocumentType}
use kiln_print.Printer.{Printer}
use kiln_print.Engine.Submit.Types.{PrintPayload, raw_payload, Agent}

-- How `blocking` fares with its pool: the closure runs, no permit is to be had, or it panics.
pub data Pool : Type 0 where
  runs closed panics : Pool

abbrev pub shutting_down : PrintError
shutting_down = Error.new unsupported_operation (text "the agent is shutting down" ∷ [])

abbrev pub blocking : {A : Type 0} → Pool → Result A → Result A
blocking runs r = r
blocking closed r = err shutting_down
blocking panics r = err internal

-- What a submission meets where it awaits: what all other tasks do to the state meanwhile, how the
-- printer is resolved, and the pools. `t` and `now` are
-- what the clock reads inside and outside the closures throughout the submission.
pub record Awaits (R S P : Type 0) : Type 0 where
  pub resolving : Agent R S P → Agent R S P
  pub resolved : Result Printer
  pub inspecting : Agent R S P → Agent R S P
  pub inspect_pool : Pool
  pub rendering : Agent R S P → Agent R S P
  pub render_pool : Pool
  pub queueing : Agent R S P → Agent R S P
  pub t : ℕ
  pub now : ℕ

abbrev pub is_html : DocumentType → Bool
is_html DocumentType.html = true
is_html _ = false

abbrev pub is_raw : DocumentType → Bool
is_raw DocumentType.raw = true
is_raw _ = false

abbrev pub is_nil : {A : Type 0} → List A → Bool
is_nil [] = true
is_nil (x ∷ xs) = false

-- `warnings.join("; ")`.
abbrev pub join : List String → Message
join [] = []
join (w ∷ []) = text w ∷ []
join (w ∷ v ∷ ws) = text w ∷ text "; " ∷ join (v ∷ ws)

-- `language.clone_from(&raw.language)`, if no protocol named it before.
abbrev pub reported : {P : Type 0} → Option String → PrintPayload P → Option String
reported (some l) payload = some l
reported none (raw_payload p l) = l
reported none _ = none
