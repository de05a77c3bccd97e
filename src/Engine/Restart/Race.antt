-- ===== src/Engine/Restart/Race.antt =====
-- A race of `shutdown` with the worker (print-core/src/engine/mod.rs and worker.rs): the snapshot is
-- taken first, and the stage is not tested again when the job is failed.
use mathlib.Core.List.{append-nil}
use kiln_print.Prelude.{ℕ, ◌≡◌, sym, ap, ap₂, subst, ◌∙◌, true, some, [], ◌∷◌, ◌++◌, arith, lookup}
use kiln_print.Job.{Job, JobStatus, DeliveryStage}
use kiln_print.Repository.{JobRepository}
use kiln_print.Engine.Types.{Inner, JobEventKind, job_event}
use kiln_print.Engine.Changes.{claim_change, fail_change}
use kiln_print.Engine.Changes.Failing.{Records, FailsWith, fail-FailsWith, touch-FailsWith}
use kiln_print.Engine.Mutate.{mutate-Applied, log}
use kiln_print.Engine.{mutate}
use kiln_print.Engine.Restart.{fail_all, fail_job, shut_down, outcome}

module _ {R : Type 0} (repository : JobRepository R) (clock : ℕ → ℕ × ℕ) (claimed_at : ℕ) where
  -- The worker claims the job that `shutdown` is about to visit.
  abbrev pub claims : ℕ → Inner R → Inner R
  claims id s = (mutate repository claimed_at id claim_change s).0

  -- A queued job that the worker claims after `shutdown` took its list of jobs, and before it
  -- fails them, is failed as recoverable with the outcome NOT_PRINTED although it is being
  -- submitted.
  pub shutdown_race :
      (j : Job) (s : Inner R)
      → lookup j.job_id s.active ≡ some j
      → j.status ≡ JobStatus.queued
      → (failed : Job) × ((fail_all repository clock claims (j ∷ []) s).events
          ≡ s.events ++ job_event JobEventKind.failed failed ∷ [])
        × (failed.delivery ≡ DeliveryStage.submitting)
        × (r : Records shut_down failed) × (r.recorded.recoverable ≡ true)
        × (r.recorded.details ≡ some (outcome "NOT_PRINTED"))
  unfolding fail_all fail_job claim_change shut_down
  shutdown_race j s found waiting =
      let (a, active) = mutate-Applied repository claimed_at j.job_id claim_change s found in
      let claimed : lookup j.job_id (claims j.job_id s).active ≡ some a.job =
        active ∙ ground arith in
      let (b, gone) =
        mutate-Applied repository (clock j.job_id).1 j.job_id
          (fail_change (clock j.job_id).0 shut_down) (claims j.job_id s) claimed in
      let still : a.job.status ≡ JobStatus.queued = ap (λ (x : Job). x.status) a.result ∙ waiting in
      let handed : a.job.delivery ≡ DeliveryStage.submitting =
        ap (λ (x : Job). x.delivery) a.result in
      let (told, f) = fail-FailsWith (clock j.job_id).0 shut_down a.job (ground arith) in
      let g =
        subst (FailsWith shut_down a.job) (sym b.result)
          (touch-FailsWith shut_down a.job _ b.job.updated_at f) in
      (
        b.job,
        b.events ∙ ap₂ (λ es k. es ++ log k b.job) (a.events ∙ append-nil s.events) told,
        g.delivery ∙ handed,
        g.error,
        g.error.recoverable,
        g.error.details,
      )
