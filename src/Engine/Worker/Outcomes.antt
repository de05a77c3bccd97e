-- ===== src/Engine/Worker/Outcomes.antt =====
-- How the worker of print-core/src/engine/worker.rs leaves a job.
use kiln_print.Prelude.{
  ℕ, ◌≡◌, ap, ◌∙◌, ◌⊎◌, inl, inr, false, Option, none, some, arith, Bool-cases, lookup,
}
use kiln_print.Error.{PrintError, Result, ok, err}
use kiln_print.Job.{Job, JobStatus, DeliveryStage, is_terminal}
use kiln_print.Repository.{JobRepository}
use kiln_print.Engine.Types.{Inner, Mutated, Change, SubmitOutcome, spooled, delivered}
use kiln_print.Engine.Changes.{claim_change, delivered_change, spooled_change, fail_change}
use kiln_print.Engine.Mutate.{mutate-Applied, mutate_inactive}
use kiln_print.Engine.{mutate}
use kiln_print.Engine.Worker.{
  Answer, returned, panicked, timed_out, Submission, fail_job, submitted, conclude, dispatch,
  process,
}

-- The job is settled, or it is in the spooler under the id of the monitor that follows it.
abbrev pub Settles : {R : Type 0} → ℕ → Inner R × Option ℕ → Type 0
Settles id (s, none) = lookup id s.active ≡ none
Settles id (s, some spooler_id) =
    (lookup id s.active ≡ none)
    ⊎ ((j : Job) × (lookup id s.active ≡ some j)
        × (j.delivery ≡ DeliveryStage.spooler_accepted)
        × (j.spooler_job_id ≡ some spooler_id)
        × (j.status ≡ JobStatus.queued))

-- The job `id` is gone from the table, or still waits in status QUEUED.
abbrev pub Waits : {R : Type 0} → ℕ → Inner R → Type 0
Waits id s =
    (lookup id s.active ≡ none)
    ⊎ ((j : Job) × (lookup id s.active ≡ some j) × (j.status ≡ JobStatus.queued))

module _ {R : Type 0} (repository : JobRepository R) (b : Submission R) (id : ℕ) where
  gone_stays :
      (now : ℕ) (c : Change) (s : Inner R)
      → lookup id s.active ≡ none
      → lookup id (mutate repository now id c s).0.active ≡ none
  gone_stays now c s gone = rw (mutate_inactive repository now id c s gone) gone

  fail_job-gone :
      (e : PrintError) (s : Inner R)
      → Waits id s
      → lookup id (fail_job repository b id e s).active ≡ none
  unfolding fail_job fail_change
  fail_job-gone e s (inl gone) = gone_stays b.now (fail_change b.t e) s gone
  fail_job-gone e s (inr (j, found, waiting)) =
      (mutate-Applied repository b.now id (fail_change b.t e) s found).1 ∙ ground arith

  submitted-Settles :
      (outcome : SubmitOutcome) (s : Inner R)
      → Waits id s
      → Settles id (submitted repository b id outcome s)
  unfolding submitted delivered_change spooled_change
  submitted-Settles delivered s (inl gone) = gone_stays b.now (delivered_change b.t b.t') s gone
  submitted-Settles delivered s (inr (j, found, waiting)) =
      (mutate-Applied repository b.now id (delivered_change b.t b.t') s found).1 ∙ ground arith
  submitted-Settles (spooled spooler_id) s (inl gone) =
      inl (gone_stays b.now (spooled_change b.t spooler_id) s gone)
  submitted-Settles (spooled spooler_id) s (inr (j, found, waiting)) =
      let (a, active) =
        mutate-Applied repository b.now id (spooled_change b.t spooler_id) s found in
      inr (
        a.job,
        active ∙ ground arith,
        ap (λ (x : Job). x.delivery) a.result,
        ap (λ (x : Job). x.spooler_job_id) a.result,
        ap (λ (x : Job). x.status) a.result ∙ waiting,
      )

  conclude-Settles :
      (answer : Answer) (s : Inner R) → Waits id s → Settles id (conclude repository b id answer s)
  unfolding conclude
  conclude-Settles (returned (ok outcome)) s w = submitted-Settles outcome s w
  conclude-Settles (returned (err e)) s w = fail_job-gone e s w
  conclude-Settles panicked s w = fail_job-gone _ s w
  conclude-Settles timed_out s w = fail_job-gone _ s w

  dispatch-Settles :
      (found : Result (Unit {0})) (s : Inner R)
      → Waits id s
      → Settles id (dispatch repository b id found s)
  unfolding dispatch
  dispatch-Settles (err e) s w = fail_job-gone e s w
  dispatch-Settles (ok u) s w = elim (Bool-cases b.permit) [
    | inl p ↦ rw p (conclude-Settles b.answer s w)
    | inr p ↦ rw p (fail_job-gone _ s w)
  ]

  -- The worker that takes up a queued job leaves no job behind that nothing watches: whatever the
  -- provider answers, panics included, and whatever the other tasks do with the job meanwhile
  -- (they end it, or leave it queued), the job is out of the table of active jobs, or the worker
  -- returns the spooler's id for its monitor and the job that is still active is in the spooler
  -- under that id.
  pub process-Settles :
      {before : Job} (s : Inner R)
      → lookup id s.active ≡ some before
      → is_terminal before.status ≡ false
      → ((s' : Inner R) → Waits id (b.others s'))
      → Settles id (process repository b id s)
  unfolding process claim_change
  process-Settles s found open_status calm =
      let (a, active) = mutate-Applied repository b.claimed_at id claim_change s found in
      rw (a.answer, process) (dispatch-Settles b.found _ (calm _))

  -- A job that is no longer active is dropped by the worker, with no change of the state and no
  -- submission.
  pub process_dropped :
      (s : Inner R) → lookup id s.active ≡ none → process repository b id s ≡ (s, none)
  unfolding process
  process_dropped s gone =
      let e = mutate_inactive repository b.claimed_at id claim_change s gone in
      rw (ap (λ (r : Inner R × Option Mutated). r.1) e, process)
        (ap (λ (r : Inner R × Option Mutated). (r.0, none)) e)
