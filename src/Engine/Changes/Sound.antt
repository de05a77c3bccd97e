-- ===== src/Engine/Changes/Sound.antt =====
-- Every closure that the engine hands to `mutate` keeps a job's identity and well-formedness.
use kiln_print.Prelude.{ℕ, String, ◌≡◌, refl, Bool, true, false, Option, List, arith}
use kiln_print.Error.{ErrorCode, PrintError}
use kiln_print.Job.{Job, JobStatus, CompletionEvidence, is_terminal, transition}
use kiln_print.Job.Wellformed.{
  IsWellformed, transition-IsWellformed, fail-IsWellformed, complete-IsWellformed,
}
use kiln_print.Engine.Types.{Change, ProviderJobState}
use kiln_print.Engine.Changes.{
  fail_change, complete_change, cancel_change, cancel_warned, claim_change, delivered_change,
  spooled_change, pending_change, printing_change, blocked_change, monitor_change, withdraw_change,
  validate_change, address_change, queue_change, deleted_warning,
}

-- A change keeps the job's identity and, run on an active job, its well-formedness.
pub record IsSound (c : Change) : Type 0 where
  pub same_job : (j : Job) → (c j).0.job_id ≡ j.job_id
  pub keeps : (j : Job) → is_terminal j.status ≡ false → IsWellformed j → IsWellformed (c j).0

transition-job_id : (t : ℕ) (next : JobStatus) (j : Job) → (transition t next j).0.job_id ≡ j.job_id
unfolding transition
transition-job_id t next j = ground arith

pub fail-IsSound : (t : ℕ) (e : PrintError) → IsSound (fail_change t e)
unfolding fail_change
fail-IsSound t e = record {
  same_job = λ j. ground arith;
  keeps = λ j o v. ground (arith, fail-IsWellformed t e j v);
}

pub complete-IsSound : (t : ℕ) (c : CompletionEvidence) → IsSound (complete_change t c)
unfolding complete_change
complete-IsSound t c = record {
  same_job = λ j. ground arith;
  keeps = λ j o v. ground (arith, complete-IsWellformed t c j v);
}

pub cancel-IsSound : (t : ℕ) → IsSound (cancel_change t)
unfolding cancel_change
cancel-IsSound t = record {
  same_job = λ j. ground arith;
  keeps = λ j o v. transition-IsWellformed t JobStatus.cancelled j refl refl v;
}

pub cancel_warned-IsSound : (t : ℕ) (w : String) → IsSound (cancel_warned t w)
unfolding cancel_warned
cancel_warned-IsSound t w = record { same_job = λ j. ground arith; keeps = λ j o v. ground arith }

pub withdraw-IsSound : (t : ℕ) → IsSound (withdraw_change t)
unfolding withdraw_change
withdraw-IsSound t = record { same_job = λ j. ground arith; keeps = λ j o v. ground arith }

pub validate-IsSound : (t : ℕ) → IsSound (validate_change t)
unfolding validate_change
validate-IsSound t = record {
  same_job = λ j. ground arith;
  keeps = λ j o v. transition-IsWellformed t JobStatus.validating j refl refl v;
}

pub address-IsSound : (id name : String) → IsSound (address_change id name)
unfolding address_change
address-IsSound id name = record { same_job = λ j. refl; keeps = λ j o v. ground arith }

pub queue-IsSound : (t : ℕ) (ws : List String) (l : Option String) → IsSound (queue_change t ws l)
unfolding queue_change
queue-IsSound t ws l = record { same_job = λ j. ground arith; keeps = λ j o v. ground arith }

pub claim-IsSound : IsSound claim_change
unfolding claim_change
claim-IsSound = record { same_job = λ j. refl; keeps = λ j o v. ground arith }

pub delivered-IsSound : (t t' : ℕ) → IsSound (delivered_change t t')
unfolding delivered_change
delivered-IsSound t t' = record { same_job = λ j. ground arith; keeps = λ j o v. ground arith }

pub spooled-IsSound : (t id : ℕ) → IsSound (spooled_change t id)
unfolding spooled_change
spooled-IsSound t id = record { same_job = λ j. refl; keeps = λ j o v. ground arith }

pending-IsSound : IsSound pending_change
unfolding pending_change
pending-IsSound = record { same_job = λ j. refl; keeps = λ j o v. ground arith }

printing-IsSound : (t : ℕ) → IsSound (printing_change t)
unfolding printing_change
printing-IsSound t = record { same_job = λ j. ground arith; keeps = λ j o v. ground arith }

blocked-IsSound : (c : ErrorCode) → IsSound (blocked_change c)
unfolding blocked_change
blocked-IsSound c = record { same_job = λ j. ground arith; keeps = λ j o v. ground arith }

pub monitor-IsSound :
    (t : ℕ) (cancelling : Bool) (state : ProviderJobState)
    → IsSound (monitor_change t cancelling state)
unfolding monitor_change
monitor-IsSound t cancelling ProviderJobState.pending = pending-IsSound
monitor-IsSound t cancelling ProviderJobState.printing = printing-IsSound t
monitor-IsSound t cancelling (ProviderJobState.blocked c m) = blocked-IsSound c
monitor-IsSound t cancelling ProviderJobState.printed = complete-IsSound t _
monitor-IsSound t true ProviderJobState.gone = cancel-IsSound t
monitor-IsSound t false ProviderJobState.gone = complete-IsSound t _
monitor-IsSound t cancelling (ProviderJobState.failed e) = fail-IsSound t e
monitor-IsSound t cancelling ProviderJobState.cancelled = cancel_warned-IsSound t deleted_warning
