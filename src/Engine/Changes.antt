-- ===== src/Engine/Changes.antt =====
-- The closures that the worker, the monitor, cancellation, shutdown and restart hand to `mutate`.
-- `t` is the reading of the clock inside the closure.
pub mod Sound
pub mod Failing
use kiln_print.Prelude.{
  ℕ, String, Bool, true, false, ite, Option, none, some, is_some, then_some, List, [], ◌∷◌, ◌++◌,
  if◌then◌else◌,
}
use kiln_print.Error.{ErrorCode, ErrorCode-discrete, PrintError}
use kiln_print.Job.{
  Job, JobStatus, DeliveryStage, CompletionEvidence, is_queued, is_request_accepted, transition,
  fail, complete,
}
use kiln_print.Engine.Types.{JobEventKind, Change, ProviderJobState}

-- `moved.then_some(kind)`.
abbrev pub announce : JobEventKind → Job × Bool → Job × Option JobEventKind
announce kind (j, moved) = (j, then_some moved kind)

abbrev pub warn : String → Job → Job
warn w j = record j { warnings = j.warnings ++ w ∷ [] }

-- The warning is pushed, and the event sent, only if the job moved.
abbrev pub announce_warned : String → Job × Bool → Job × Option JobEventKind
announce_warned w (j, moved) = if moved then (warn w j, some JobEventKind.cancelled) else (j, none)

unfoldable pub fail_change : ℕ → PrintError → Change
unfolding fail
fail_change t e j = announce JobEventKind.failed (fail t e j)

unfoldable pub complete_change : ℕ → CompletionEvidence → Change
unfolding complete
complete_change t evidence j = announce JobEventKind.completed (complete t evidence j)

unfoldable pub cancel_change : ℕ → Change
unfolding transition
cancel_change t j = announce JobEventKind.cancelled (transition t JobStatus.cancelled j)

unfoldable pub cancel_warned : ℕ → String → Change
unfolding transition
cancel_warned t w j = announce_warned w (transition t JobStatus.cancelled j)

-- `prepare` and `enqueue`: validation begins, the printer is known, the job is queued.
unfoldable pub validate_change : ℕ → Change
unfolding transition
validate_change t j = ((transition t JobStatus.validating j).0, none)

unfoldable pub address_change : String → String → Change
address_change id name j = (record j { printer_id = some id; printer_name = some name }, none)

abbrev or_else : Option String → Option String → Option String
or_else none l = l
or_else (some m) l = some m

unfoldable pub queue_change : ℕ → List String → Option String → Change
unfolding transition
queue_change t warnings language j = announce JobEventKind.queued (
    transition t JobStatus.queued
      (record j { warnings = warnings; language = or_else language j.language }))

-- worker.rs: the claim of a queued job, and what a successful submission records.
unfoldable pub claim_change : Change
claim_change j = (record j { delivery = DeliveryStage.submitting }, none)

unfoldable pub delivered_change : ℕ → ℕ → Change
unfolding complete_change
delivered_change t t' j =
    complete_change t' CompletionEvidence.bytes_delivered
      (record j { delivery = DeliveryStage.device_delivered; submitted_at = some t })

unfoldable pub spooled_change : ℕ → ℕ → Change
spooled_change t spooler_job_id j = (
  record j {
    delivery = DeliveryStage.spooler_accepted;
    spooler_job_id = some spooler_job_id;
    submitted_at = some t;
  },
  some JobEventKind.spooled,
)

-- monitor.rs: one closure for each state that the spooler reports.
unfoldable pub pending_change : Change
pending_change j =
    (record j { condition = none }, then_some (is_some j.condition) JobEventKind.updated)

-- `j.transition(Printing)` runs only on a queued job.
begin_printing : ℕ → Bool → Change
unfolding transition
begin_printing t cleared j =
    if is_queued j.status
    then (let (j', moved) = transition t JobStatus.printing j in
        (j', if moved then some JobEventKind.printing else then_some cleared JobEventKind.updated))
    else (j, then_some cleared JobEventKind.updated)

unfoldable pub printing_change : ℕ → Change
unfolding begin_printing
printing_change t j = begin_printing t (is_some j.condition) (record j { condition = none })

abbrev same_code : Option ErrorCode → ErrorCode → Bool
same_code none c = false
same_code (some d) c = ite (ErrorCode-discrete d c) true false

unfoldable pub blocked_change : ErrorCode → Change
unfolding ErrorCode-discrete
blocked_change c j =
    if same_code j.condition c
    then (j, none)
    else (record j { condition = some c }, some JobEventKind.updated)

abbrev pub deleted_warning : String
deleted_warning = "the job was deleted from the OS print queue"

-- The `match state` of `apply`; `cancelling` tells whether a cancellation of the job is in flight.
unfoldable pub monitor_change : ℕ → Bool → ProviderJobState → Change
unfolding pending_change printing_change blocked_change complete_change cancel_change fail_change
    cancel_warned
monitor_change t cancelling ProviderJobState.pending = pending_change
monitor_change t cancelling ProviderJobState.printing = printing_change t
monitor_change t cancelling (ProviderJobState.blocked condition message) = blocked_change condition
monitor_change t cancelling ProviderJobState.printed =
    complete_change t CompletionEvidence.spooler_reported_printed
monitor_change t true ProviderJobState.gone = cancel_change t
monitor_change t false ProviderJobState.gone =
    complete_change t CompletionEvidence.spooler_job_retired
monitor_change t cancelling (ProviderJobState.failed e) = fail_change t e
monitor_change t cancelling ProviderJobState.cancelled = cancel_warned t deleted_warning

-- `PrintEngine::cancel` of a job that the agent still holds: the stage is tested again.
unfoldable pub withdraw_change : ℕ → Change
unfolding cancel_change
withdraw_change t j = if is_request_accepted j.delivery then cancel_change t j else (j, none)
