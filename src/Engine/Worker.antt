-- ===== src/Engine/Worker.antt =====
-- print-core/src/engine/worker.rs: the submission of one queued job.
pub mod Outcomes
use kiln_print.Prelude.{ℕ, ◌/◌, Bool, true, false, Option, none, some, List, [], ◌∷◌, if◌then◌else◌}
use kiln_print.Error.{
  PrintError, Result, ok, err, Value, text, number, internal, with_details, with_recoverable,
  timeout,
}
use kiln_print.Error
use kiln_print.Repository.{JobRepository}
use kiln_print.Engine.Types.{Inner, SubmitOutcome, spooled, delivered}
use kiln_print.Engine.Changes.{claim_change, delivered_change, spooled_change, fail_change}
use kiln_print.Engine.{mutate}

-- How the call of the provider ends, as `process` sees it.
pub data Answer : Type 0 where
  returned : Result SubmitOutcome → Answer
  panicked : Answer
  timed_out : Answer

-- What `process` meets on its way. `found` is the result of the lookup of the provider, `permit`
-- tells whether a permit was had, and `others` is what all other tasks do to the shared state
-- between the claim and the provider's answer. `t`, `t'` and `now` are readings of the clock.
pub record Submission (R : Type 0) : Type 0 where
  pub found : Result (Unit {0})
  pub permit : Bool
  pub others : Inner R → Inner R
  pub answer : Answer
  pub timeout_secs : ℕ
  pub claimed_at : ℕ
  pub t : ℕ
  pub t' : ℕ
  pub now : ℕ

unfoldable pub panic_error : PrintError
unfolding internal with_details Error.new
panic_error = with_details internal (("outcome", text "UNKNOWN") ∷ [])

unfoldable pub timeout_error : ℕ → PrintError
unfolding with_details with_recoverable Error.new
timeout_error secs =
    with_details
      (with_recoverable
        (Error.new timeout (
          text "the printer did not accept the job within "
          ∷ number secs
          ∷ text "s; it may still print"
          ∷ []))
        false)
      (("outcome", text "UNKNOWN") ∷ ("timeoutSeconds", number secs) ∷ [])

module _ {R : Type 0} (repository : JobRepository R) where
  fail_job : Submission R → ℕ → PrintError → Inner R → Inner R
  fail_job b id e s = (mutate repository b.now id (fail_change b.t e) s).0

  -- The spooler id of the monitor to start, if any, beside the state.
  unfoldable pub submitted : Submission R → ℕ → SubmitOutcome → Inner R → Inner R × Option ℕ
  submitted b id delivered s = ((mutate repository b.now id (delivered_change b.t b.t') s).0, none)
  submitted b id (spooled spooler_id) s =
      ((mutate repository b.now id (spooled_change b.t spooler_id) s).0, some spooler_id)

  unfoldable pub conclude : Submission R → ℕ → Answer → Inner R → Inner R × Option ℕ
  unfolding fail_job submitted
  conclude b id (returned (ok outcome)) s = submitted b id outcome s
  conclude b id (returned (err e)) s = (fail_job b id e s, none)
  conclude b id panicked s = (fail_job b id panic_error s, none)
  conclude b id timed_out s = (fail_job b id (timeout_error b.timeout_secs) s, none)

  dispatch : Submission R → ℕ → Result (Unit {0}) → Inner R → Inner R × Option ℕ
  unfolding conclude fail_job
  dispatch b id (err e) s = (fail_job b id e s, none)
  dispatch b id (ok u) s =
      if b.permit then conclude b id b.answer s else (fail_job b id internal s, none)

  -- A job that is no longer active is dropped without touching the printer.
  unfoldable pub process : Submission R → ℕ → Inner R → Inner R × Option ℕ
  unfolding dispatch
  process b id s =
      let (s', claimed) = mutate repository b.claimed_at id claim_change s in
      elim claimed [ none ↦ (s', none) | some m ↦ dispatch b id b.found (b.others s') ]
