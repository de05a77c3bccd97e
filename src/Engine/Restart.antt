-- ===== src/Engine/Restart.antt =====
-- `reconcile_after_restart` and `shutdown` of print-core/src/engine/mod.rs. `clock` gives the two
-- readings of the clock, inside the closure and in `mutate`, for each job that a loop visits.
pub mod Laws
pub mod Race
use kiln_print.Prelude.{
  ℕ, String, Bool, true, false, Option, none, some, List, [], ◌∷◌, keep, leb, if◌then◌else◌, Map,
  insert, values,
}
use kiln_print.Error.{
  PrintError, Result, ok, err, Value, Message, text, print_failed, printer_not_found, with_details,
  with_recoverable, ◌>>=◌,
}
use kiln_print.Error
use kiln_print.Job.{Job, DeliveryStage, CompletionEvidence, is_request_accepted}
use kiln_print.Printer.{Printer}
use kiln_print.Repository.{JobRepository}
use kiln_print.Engine.Types.{Inner}
use kiln_print.Engine.Changes.{fail_change, complete_change}
use kiln_print.Engine.{mutate}

abbrev pub outcome : String → List (String × Value)
outcome o = ("outcome", text o) ∷ []

unfoldable pub not_printed : Message → PrintError
unfolding Error.new with_details with_recoverable
not_printed message =
    with_details (with_recoverable (Error.new print_failed message) true) (outcome "NOT_PRINTED")

unfoldable pub lost_printer : PrintError
unfolding Error.new with_details with_recoverable
lost_printer =
    with_details
      (with_recoverable
        (Error.new printer_not_found (
          text "the printer disappeared while the agent was stopped; the job's outcome is unknown"
          ∷ []))
        false)
      (outcome "UNKNOWN")

unfoldable pub interrupted : PrintError
unfolding Error.new with_details with_recoverable
interrupted =
    with_details
      (with_recoverable
        (Error.new print_failed (
          text
            "the agent stopped while handing this job to the printer; it may or may not have printed"
          ∷ []))
        false)
      (outcome "UNKNOWN")

unfoldable pub restarted : PrintError
unfolding not_printed
restarted = not_printed (text "the agent restarted before this job was sent to the printer" ∷ [])

unfoldable pub shut_down : PrintError
unfolding not_printed
shut_down = not_printed (text "the agent shut down before this job was sent to the printer" ∷ [])

-- A monitor to start: the job, its printer and its id in the spooler.
pub record Monitor : Type 0 where
  pub job_id : ℕ
  pub printer : Printer
  pub spooler_job_id : ℕ

abbrev pub push : Option Monitor → List Monitor → List Monitor
push none ms = ms
push (some m) ms = m ∷ ms

-- `active_jobs` sorts its snapshot by age: a stable sort, oldest first.
unfoldable pub insert_oldest : Job → List Job → List Job
insert_oldest j [] = j ∷ []
insert_oldest j (k ∷ ks) =
    if leb j.created_at k.created_at then j ∷ k ∷ ks else k ∷ insert_oldest j ks

unfoldable pub sort_oldest : List Job → List Job
unfolding insert_oldest
sort_oldest [] = []
sort_oldest (j ∷ js) = insert_oldest j (sort_oldest js)

unfoldable pub active_jobs : {R : Type 0} → (Job → Bool) → Inner R → List Job
unfolding sort_oldest
active_jobs p s = sort_oldest (keep p (values s.active))

module _ {R : Type 0} (repository : JobRepository R) (clock : ℕ → ℕ × ℕ) where
  fail_job : ℕ → PrintError → Inner R → Inner R
  fail_job id e s = (mutate repository (clock id).1 id (fail_change (clock id).0 e) s).0

  -- The `match` on what was persisted of one job.
  unfoldable pub reconcile_one :
      ℕ → DeliveryStage → Option ℕ → Option Printer → Inner R → Inner R × Option Monitor
  unfolding fail_job
  reconcile_one id DeliveryStage.spooler_accepted (some spooler_id) (some printer) s =
      (s, some (record { job_id = id; printer = printer; spooler_job_id = spooler_id }))
  reconcile_one id DeliveryStage.spooler_accepted _ _ s = (fail_job id lost_printer s, none)
  reconcile_one id DeliveryStage.submitting _ _ s = (fail_job id interrupted s, none)
  reconcile_one id DeliveryStage.request_accepted _ _ s = (fail_job id restarted s, none)
  reconcile_one id DeliveryStage.device_delivered _ _ s = (
    (mutate repository (clock id).1 id
        (complete_change (clock id).0 CompletionEvidence.bytes_delivered) s).0,
    none,
  )

  -- `cached` looks a printer up in the discovery cache.
  unfoldable pub reconcile_all :
      (String → Option Printer) → List Job → Inner R → Inner R × List Monitor
  unfolding reconcile_one
  reconcile_all cached [] s = (s, [])
  reconcile_all cached (j ∷ js) s =
      let printer : Option Printer = elim j.printer_id [ none ↦ none | some id ↦ cached id ] in
      let woken = record s { active = insert j.job_id j s.active } in
      let (s', m) = reconcile_one j.job_id j.delivery j.spooler_job_id printer woken in
      let (s'', ms) = reconcile_all cached js s' in (s'', push m ms)

  unfoldable pub reconcile_after_restart :
      (String → Option Printer) → Inner R → Result (Inner R × List Monitor)
  unfolding reconcile_all
  reconcile_after_restart cached s = do
    jobs ← repository.non_terminal s.repo
    ok (reconcile_all cached jobs s)

  -- The loop of `shutdown` over its snapshot; `others id` is what all other tasks do to the shared
  -- state before the job `id` is visited.
  unfoldable pub fail_all : (ℕ → Inner R → Inner R) → List Job → Inner R → Inner R
  unfolding fail_job
  fail_all others [] s = s
  fail_all others (j ∷ js) s = fail_all others js (fail_job j.job_id shut_down (others j.job_id s))

  unfoldable pub shutdown : (ℕ → Inner R → Inner R) → Inner R → Inner R
  unfolding fail_all active_jobs
  shutdown others s = fail_all others (active_jobs (λ j. is_request_accepted j.delivery) s) s
