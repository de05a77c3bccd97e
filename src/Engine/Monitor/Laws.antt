-- ===== src/Engine/Monitor/Laws.antt =====
-- What a poll of print-core/src/engine/monitor.rs does to a job that the spooler holds.
use kiln_print.Prelude.{
  ℕ, ◌≡◌, ◌≢◌, refl, ap, ◌∙◌, ◌⊎◌, inl, inr, Bool, true, false, none, some, arith, Bool-cases,
  lookup,
}
use kiln_print.Job.{Job, JobStatus, is_terminal}
use kiln_print.Repository.{JobRepository}
use kiln_print.Engine.Types.{Inner, ProviderJobState}
use kiln_print.Engine.Changes.{monitor_change}
use kiln_print.Engine.Mutate.{mutate-Applied}
use kiln_print.Engine.Monitor.{done, is_cancelling, apply}

-- The spooler holds the job and prints it or is about to.
abbrev pub is_spooled : JobStatus → Bool
is_spooled JobStatus.queued = true
is_spooled JobStatus.printing = true
is_spooled _ = false

-- The status that the answer of the spooler stands for.
abbrev pub verdict : Bool → JobStatus → ProviderJobState → JobStatus
verdict cancelling status ProviderJobState.pending = status
verdict cancelling status ProviderJobState.printing = JobStatus.printing
verdict cancelling status (ProviderJobState.blocked c m) = status
verdict cancelling status ProviderJobState.printed = JobStatus.completed
verdict true status ProviderJobState.gone = JobStatus.cancelled
verdict false status ProviderJobState.gone = JobStatus.completed
verdict cancelling status (ProviderJobState.failed e) = JobStatus.failed
verdict cancelling status ProviderJobState.cancelled = JobStatus.cancelled

pub change-verdict :
    (t : ℕ) (cancelling : Bool) (state : ProviderJobState) (j : Job)
    → is_spooled j.status ≡ true
    → (monitor_change t cancelling state j).0.status ≡ verdict cancelling j.status state
unfolding monitor_change
change-verdict t cancelling ProviderJobState.pending j h = ground arith
change-verdict t cancelling ProviderJobState.printing j h = ground arith
change-verdict t cancelling (ProviderJobState.blocked c m) j h = ground arith
change-verdict t cancelling ProviderJobState.printed j h = ground arith
change-verdict t true ProviderJobState.gone j h = ground arith
change-verdict t false ProviderJobState.gone j h = ground arith
change-verdict t cancelling (ProviderJobState.failed e) j h = ground arith
change-verdict t cancelling ProviderJobState.cancelled j h = ground arith

module _ {R : Type 0} (repository : JobRepository R) where
  -- On an active job that is queued or printing the monitor stops exactly at an answer of the spooler
  -- that settles the job, and then the job is out of the table of active jobs; else it goes on, and
  -- the job is active with the status that the answer calls for.
  pub apply-verdict :
      (t now id : ℕ) (state : ProviderJobState) (s : Inner R) {before : Job}
      → lookup id s.active ≡ some before
      → is_spooled before.status ≡ true
      → let status = verdict (is_cancelling id s) before.status state in
        let (s', step) = apply repository t now id state s in
        ((step ≡ done) × (is_terminal status ≡ true) × (lookup id s'.active ≡ none))
        ⊎ ((is_terminal status ≡ false)
            × (step ≢ done)
            × ((j : Job) × (lookup id s'.active ≡ some j) × (j.status ≡ status)))
  unfolding apply
  apply-verdict t now id state s {before} found held =
      let c = monitor_change t (is_cancelling id s) state in
      let (a, active) = mutate-Applied repository now id c s found in
      let told = change-verdict t (is_cancelling id s) state before held in
      let same : a.job.status ≡ verdict (is_cancelling id s) before.status state =
        ap (λ (j : Job). j.status) a.result ∙ told in
      elim (Bool-cases (is_terminal (verdict (is_cancelling id s) before.status state))) [
        | inl ended ↦ rw (a.answer, apply) (inl (ground arith, ended, ground arith))
        | inr open_status ↦
            rw (a.answer, apply)
              (inr
                (open_status, ground arith, (a.job, active ∙ rw told (rw open_status refl), same)))
      ]
