-- ===== src/Engine/Changes/Failing.antt =====
-- What a failure records on an active job.
use kiln_print.Prelude.{ℕ, String, ◌≡◌, false, Option, some, arith}
use kiln_print.Error.{PrintError, with_job}
use kiln_print.Job.{Job, JobStatus, is_terminal, annotate}
use kiln_print.Engine.Types.{JobEventKind}
use kiln_print.Engine.Changes.{fail_change}

-- The recorded error says what the given one says; whom it is about is added.
pub record Records (e : PrintError) (j : Job) : Type 0 where
  pub recorded : PrintError
  pub held : j.error ≡ some recorded
  pub code : recorded.error_code ≡ e.error_code
  pub recoverable : recorded.recoverable ≡ e.recoverable
  pub details : recorded.details ≡ e.details

pub record FailsWith (e : PrintError) (j j' : Job) : Type 0 where
  pub status : j'.status ≡ JobStatus.failed
  pub delivery : j'.delivery ≡ j.delivery
  pub error : Records e j'

annotate-Records :
    (p : Option String) (e : PrintError) (id : ℕ) (j : Job)
    → j.error ≡ some (annotate p (with_job e id))
    → Records e j
unfolding annotate with_job
annotate-Records p e id j h = record {
  recorded = annotate p (with_job e id);
  held = h;
  code = ground arith;
  recoverable = ground arith;
  details = ground arith;
}

pub fail-FailsWith :
    (t : ℕ) (e : PrintError) (j : Job)
    → is_terminal j.status ≡ false
    → ((fail_change t e j).1 ≡ some JobEventKind.failed) × FailsWith e j (fail_change t e j).0
unfolding fail_change
fail-FailsWith t e j open_status = (
  ground arith,
  record {
    status = ground arith;
    delivery = ground arith;
    error = annotate-Records j.printer_id e j.job_id _ (ground arith);
  },
)

-- `updated_at` is no part of it.
pub touch-FailsWith :
    (e : PrintError) (j j' : Job) (t : ℕ)
    → FailsWith e j j'
    → FailsWith e j (record j' { updated_at = t })
touch-FailsWith e j j' t f = record {
  status = f.status;
  delivery = f.delivery;
  error = record {
    recorded = f.error.recorded;
    held = f.error.held;
    code = f.error.code;
    recoverable = f.error.recoverable;
    details = f.error.details;
  };
}
