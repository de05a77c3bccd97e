-- ===== src/Job/Wellformed.antt =====
-- What holds of every job that the methods of print-core/src/model/job.rs produce.
use kiln_print.Prelude.{ℕ, ◌≡◌, String, Bool, true, false, none, arith, is_some}
use kiln_print.Error.{PrintError}
use kiln_print.Job.Status.{JobStatus, completed, failed, is_terminal}
use kiln_print.Job.{Job, DocumentType, CompletionEvidence, new, transition, fail, complete}

abbrev pub is_failed : JobStatus → Bool
is_failed failed = true
is_failed _ = false

abbrev pub is_completed : JobStatus → Bool
is_completed completed = true
is_completed _ = false

-- A job has its completion time exactly if it is terminal, its error exactly if it failed and its
-- evidence exactly if it completed; a terminal job has no blocking condition.
pub record IsWellformed (j : Job) : Type 0 where
  pub closed : is_some j.completed_at ≡ is_terminal j.status
  pub unblocked : is_terminal j.status ≡ true → j.condition ≡ none
  pub failure : is_some j.error ≡ is_failed j.status
  pub evidence : is_some j.completion ≡ is_completed j.status

pub new-IsWellformed :
    (now id : ℕ) (client : String) (t : DocumentType) (copies size : ℕ)
    → IsWellformed (new now id client t copies size)
unfolding new
new-IsWellformed now id client t copies size = ground arith

pub transition-IsWellformed :
    (now : ℕ) (next : JobStatus) (j : Job)
    → is_failed next ≡ false
    → is_completed next ≡ false
    → IsWellformed j
    → IsWellformed (transition now next j).0
unfolding transition
transition-IsWellformed now next j f c v = ground arith

pub fail-IsWellformed :
    (now : ℕ) (e : PrintError) (j : Job) → IsWellformed j → IsWellformed (fail now e j).0
unfolding fail
fail-IsWellformed now e j v = ground arith

pub complete-IsWellformed :
    (now : ℕ) (c : CompletionEvidence) (j : Job)
    → IsWellformed j
    → IsWellformed (complete now c j).0
unfolding complete
complete-IsWellformed now c j v = ground arith
