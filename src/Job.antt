-- ===== src/Job.antt =====
-- print-core/src/model/job.rs: the job model. A method that mutates `&mut self` returns the new
-- job; each reading of the clock is an argument.
pub mod Status
pub mod Lifecycle
pub mod Wellformed
pub use Status.{
  JobStatus, received, validating, queued, printing, completed, failed, cancelled, is_terminal,
  can_transition_to,
}
use kiln_print.Prelude.{
  ℕ, String, String-discrete, ℕ_discrete, Bool, true, false, not, ◌&&◌, Option, none, some, is_some,
  List, [], if◌then◌else◌,
}
use kiln_print.Error.{ErrorCode, ErrorCode-discrete, PrintError, PrintError-discrete}
use kiln_print.Error

pub data DocumentType : Type 0 where
  raw text pdf html image label receipt dot_matrix : DocumentType

pub data DeliveryStage : Type 0 where
  request_accepted submitting spooler_accepted device_delivered : DeliveryStage

pub data CompletionEvidence : Type 0 where
  spooler_reported_printed spooler_job_retired bytes_delivered : CompletionEvidence

pub record Job : Type 0 where
  pub job_id : ℕ
  pub client_id : String
  pub printer_id : Option String
  pub printer_name : Option String
  pub document_type : DocumentType
  pub language : Option String
  pub job_name : Option String
  pub status : JobStatus
  pub delivery : DeliveryStage
  pub copies : ℕ
  pub size_bytes : ℕ
  pub spooler_job_id : Option ℕ
  pub condition : Option ErrorCode
  pub completion : Option CompletionEvidence
  pub warnings : List String
  pub idempotency_key : Option String
  pub created_at : ℕ
  pub updated_at : ℕ
  pub queued_at : Option ℕ
  pub submitted_at : Option ℕ
  pub started_at : Option ℕ
  pub completed_at : Option ℕ
  pub error : Option PrintError

unfoldable pub JobStatus-discrete : Discrete JobStatus
JobStatus-discrete = hlevel

unfoldable pub DocumentType-discrete : Discrete DocumentType
DocumentType-discrete = hlevel

unfoldable pub DeliveryStage-discrete : Discrete DeliveryStage
DeliveryStage-discrete = hlevel

unfoldable pub CompletionEvidence-discrete : Discrete CompletionEvidence
CompletionEvidence-discrete = hlevel

-- The derived `PartialEq`.
unfoldable pub Job-discrete : Discrete Job
Job-discrete = hlevel (
  ℕ_discrete, String-discrete, ErrorCode-discrete, PrintError-discrete, JobStatus-discrete,
  DocumentType-discrete, DeliveryStage-discrete, CompletionEvidence-discrete,
)

abbrev pub is_request_accepted : DeliveryStage → Bool
is_request_accepted request_accepted = true
is_request_accepted _ = false

abbrev pub is_queued : JobStatus → Bool
is_queued queued = true
is_queued _ = false

unfoldable pub new : ℕ → ℕ → String → DocumentType → ℕ → ℕ → Job
new now id client_id document_type copies size_bytes = record {
  job_id = id;
  client_id = client_id;
  printer_id = none;
  printer_name = none;
  document_type = document_type;
  language = none;
  job_name = none;
  status = received;
  delivery = request_accepted;
  copies = copies;
  size_bytes = size_bytes;
  spooler_job_id = none;
  condition = none;
  completion = none;
  warnings = [];
  idempotency_key = none;
  created_at = now;
  updated_at = now;
  queued_at = none;
  submitted_at = none;
  started_at = none;
  completed_at = none;
  error = none;
}

-- The `match next` of `transition`: the guards fall through to the later arms.
stamp : ℕ → JobStatus → Job → Job
stamp now queued j = if is_some j.queued_at then j else record j { queued_at = some now }
stamp now printing j = if is_some j.started_at then j else record j { started_at = some now }
stamp now next j =
    if is_terminal next then record j { completed_at = some now; condition = none } else j

unfoldable pub transition : ℕ → JobStatus → Job → Job × Bool
unfolding stamp can_transition_to
transition now next j =
    if can_transition_to j.status next
    then (record (stamp now next j) { status = next; updated_at = now }, true)
    else (j, false)

unfoldable pub annotate : Option String → PrintError → PrintError
unfolding Error.with_printer
annotate none e = e
annotate (some p) e = if is_some e.printer_id then e else Error.with_printer e p

unfoldable pub fail : ℕ → PrintError → Job → Job × Bool
unfolding transition annotate Error.with_job
fail now e j =
    let e' = annotate j.printer_id (Error.with_job e j.job_id) in
    let (j', moved) = transition now failed j in
    if moved then (record j' { error = some e' }, true) else (j', false)

unfoldable pub complete : ℕ → CompletionEvidence → Job → Job × Bool
unfolding transition
complete now evidence j =
    let (j', moved) = transition now completed j in
    if moved then (record j' { completion = some evidence }, true) else (j', false)
