-- ===== src/Engine/Cancel.antt =====
-- `PrintEngine::cancel` of print-core/src/engine/mod.rs.
pub mod Laws
use kiln_print.Prelude.{
  ℕ, String, Bool, true, false, Option, none, some, List, [], ◌∷◌, keep, not, ◌==◌, any,
  if◌then◌else◌,
}
use kiln_print.Error.{
  PrintError, Result, ok, err, Value, Message, text, invalid_job_state, internal, with_job,
  with_recoverable,
}
use kiln_print.Error
use kiln_print.Job.{Job, JobStatus, DeliveryStage, is_terminal}
use kiln_print.Job.Status.{as_str}
use kiln_print.Repository.{JobRepository}
use kiln_print.Engine.Types.{Inner, Mutated}
use kiln_print.Engine.Changes.{withdraw_change, cancel_warned}
use kiln_print.Engine.{mutate, job}

-- What `cancel` meets on its way through a spooled job: the printer and its provider, looked up
-- while `others` is what all other tasks do, and the provider's answer, awaited while `meanwhile`
-- is. `t` and `now` are readings of the clock.
pub record Cancellation (R : Type 0) : Type 0 where
  pub others : Inner R → Inner R
  pub resolved : Result (Unit {0})
  pub meanwhile : Inner R → Inner R
  pub answer : Result (Unit {0})
  pub t : ℕ
  pub now : ℕ

unfoldable pub invalid : ℕ → Message → PrintError
unfolding Error.new with_job
invalid id message = with_job (Error.new invalid_job_state message) id

abbrev pub spooler_warning : String
spooler_warning =
    "cancelled after reaching the spooler; data already sent to the printer may still print"

abbrev insert_id : ℕ → List ℕ → List ℕ
insert_id id ids = if any (λ k. k == id) ids then ids else id ∷ ids

abbrev remove_id : ℕ → List ℕ → List ℕ
remove_id id ids = keep (λ k. not (k == id)) ids

abbrev is_cancelled : JobStatus → Bool
is_cancelled JobStatus.cancelled = true
is_cancelled _ = false

module _ {R : Type 0} (repository : JobRepository R) where
  -- `.filter(…).map(…).ok_or_else(…)` on the outcome of `mutate`.
  withdrawn : ℕ → Option Mutated → Result Job
  unfolding invalid with_recoverable
  withdrawn id none =
      err
        (with_recoverable (invalid id (text "job moved on while being cancelled; retry" ∷ [])) true)
  withdrawn id (some m) =
      if is_cancelled m.job.status
      then ok m.job
      else err (
          with_recoverable (invalid id (text "job moved on while being cancelled; retry" ∷ []))
            true)

  unfoldable pub cancel_held : Cancellation R → ℕ → Inner R → Inner R × Result Job
  unfolding withdrawn
  cancel_held c id s =
      let (s', m) = mutate repository c.now id (withdraw_change c.t) s in (s', withdrawn id m)

  -- The job settled by this call, or as another task left it.
  settled : ℕ → Option Mutated → Inner R → Result Job
  settled id none s = job repository id s
  settled id (some m) s = ok m.job

  unfoldable pub conclude : Cancellation R → ℕ → Result (Unit {0}) → Inner R → Inner R × Result Job
  unfolding settled with_job
  conclude c id (err e) s =
      (record s { cancelling = remove_id id s.cancelling }, err (with_job e id))
  conclude c id (ok u) s =
      let (s', m) = mutate repository c.now id (cancel_warned c.t spooler_warning) s in
      let s'' = record s' { cancelling = remove_id id s'.cancelling } in (s'', settled id m s'')

  unfoldable pub cancel_spooled :
      Cancellation R → ℕ → Option ℕ → Option String → Inner R → Inner R × Result Job
  unfolding conclude internal
  cancel_spooled c id none printer s = (s, err internal)
  cancel_spooled c id (some spooler_id) none s = (s, err internal)
  cancel_spooled c id (some spooler_id) (some printer) s =
      let s' = c.others s in
      elim c.resolved [
        | err e ↦ (s', err e)
        | ok u ↦
            let marked = record s' { cancelling = insert_id id s'.cancelling } in
            conclude c id c.answer (c.meanwhile marked)
      ]

  cancel_at : Cancellation R → ℕ → Job → DeliveryStage → Inner R → Inner R × Result Job
  unfolding cancel_held cancel_spooled invalid with_recoverable
  cancel_at c id j DeliveryStage.request_accepted s = cancel_held c id s
  cancel_at c id j DeliveryStage.submitting s = (
    s,
    err (
        with_recoverable
          (invalid id
            (text "job is being handed to the spooler; retry the cancellation shortly" ∷ []))
          true),
  )
  cancel_at c id j DeliveryStage.spooler_accepted s =
      cancel_spooled c id j.spooler_job_id j.printer_id s
  cancel_at c id j DeliveryStage.device_delivered s =
      (s, err (invalid id (text "job was already delivered to the device" ∷ [])))

  unfoldable pub cancel : Cancellation R → ℕ → Inner R → Inner R × Result Job
  unfolding cancel_at as_str
  cancel c id s = elim (job repository id s) [
    | err e ↦ (s, err e)
    | ok j ↦
        if is_terminal j.status
        then (s, err (invalid id (text "job is already " ∷ text (as_str j.status) ∷ [])))
        else cancel_at c id j j.delivery s
  ]
