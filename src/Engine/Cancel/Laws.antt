-- ===== src/Engine/Cancel/Laws.antt =====
-- What `PrintEngine::cancel` does, stage by stage (docs/print-job-lifecycle.md, "Cancellation").
use kiln_print.Prelude.{
  ℕ, ◌≡◌, refl, ap, ◌∙◌, ◌⊎◌, inl, inr, Bool, true, false, not, ◌&&◌, none, some, [], ◌∷◌, ◌++◌,
  arith, Bool-cases, lookup,
}
use kiln_print.Error.{
  PrintError, Result, ok, err, invalid_job_state, with_job, with_recoverable, text,
  default_recoverable,
}
use kiln_print.Error
use kiln_print.Job.{Job, JobStatus, DeliveryStage, is_terminal}
use kiln_print.Job.Status.{as_str}
use kiln_print.Repository.{JobRepository}
use kiln_print.Engine.Types.{Inner, JobEventKind, job_event}
use kiln_print.Engine.Changes.{withdraw_change}
use kiln_print.Engine.Mutate.{mutate-Applied}
use kiln_print.Engine.Worker.{Submission, process}
use kiln_print.Engine.Worker.Outcomes.{process_dropped}
use kiln_print.Engine.{mutate, job}
use kiln_print.Engine.Cancel.{Cancellation, invalid, cancel, cancel_at, cancel_held, withdrawn}

abbrev pub is_submitting : DeliveryStage → Bool
is_submitting DeliveryStage.submitting = true
is_submitting _ = false

module _ {R : Type 0} (repository : JobRepository R) (c : Cancellation R) (id : ℕ)
    (s : Inner R) where
  -- A cancellation that comes too late changes nothing; it may be retried only during handover.
  pub cancel_refused :
      {j : Job}
      → job repository id s ≡ ok j
      → (is_terminal j.status ≡ true)
        ⊎ ((j.delivery ≡ DeliveryStage.submitting) ⊎ (j.delivery ≡ DeliveryStage.device_delivered))
      → (e : PrintError) × (cancel repository c id s ≡ (s, err e))
        × (e.error_code ≡ invalid_job_state)
        × (e.job_id ≡ some id)
        × (e.recoverable ≡ (not (is_terminal j.status) && is_submitting j.delivery))
  unfolding cancel invalid with_job with_recoverable default_recoverable Error.new
  cancel_refused {j} found late = elim (Bool-cases (is_terminal j.status)) [
    | inl t ↦ (
      invalid id (text "job is already " ∷ text (as_str j.status) ∷ []),
      rw (found, cancel) (rw t refl),
      refl,
      refl,
      rw t refl,
    )
    | inr t ↦ elim late [
      | inl t' ↦ cc
      | inr (inl d) ↦ (
        with_recoverable
            (invalid id
              (text "job is being handed to the spooler; retry the cancellation shortly" ∷ []))
            true,
        rw (found, cancel) (rw t (rw d refl)),
        refl,
        refl,
        rw t (rw d refl),
      )
      | inr (inr d) ↦ (
        invalid id (text "job was already delivered to the device" ∷ []),
        rw (found, cancel) (rw t (rw d refl)),
        refl,
        refl,
        rw t (rw d refl),
      )
    ]
  ]

  -- A job that the agent holds is withdrawn at once.
  cancel_held_lem :
      {j : Job} (found : lookup id s.active ≡ some j)
      → is_terminal j.status ≡ false
      → j.delivery ≡ DeliveryStage.request_accepted
      → let a = (mutate-Applied repository c.now id (withdraw_change c.t) s found).0 in
        (a.job.status ≡ JobStatus.cancelled)
        × (cancel repository c id s
            ≡ ((mutate repository c.now id (withdraw_change c.t) s).0, ok a.job))
  unfolding cancel job withdraw_change
  cancel_held_lem {j} found open_status held =
      let a = (mutate-Applied repository c.now id (withdraw_change c.t) s found).0 in
      let cancelled : a.job.status ≡ JobStatus.cancelled =
        ap (λ (x : Job). x.status) a.result ∙ ground arith in
      (
        cancelled,
        rw (found, cancel)
            (rw open_status
              (rw (held, cancel_at) (rw (a.answer, cancel_held, withdrawn) (rw cancelled refl)))),
      )

  -- Cancelling a job that was not handed to the spooler yet succeeds: the job is cancelled, one
  -- CANCELLED event is sent, and the worker that later takes the job from its queue submits
  -- nothing and changes nothing.
  pub cancel-process :
      {j : Job}
      → lookup id s.active ≡ some j
      → is_terminal j.status ≡ false
      → j.delivery ≡ DeliveryStage.request_accepted
      → (j' : Job) × ((cancel repository c id s).1 ≡ ok j')
        × (j'.status ≡ JobStatus.cancelled)
        × ((cancel repository c id s).0.events
            ≡ s.events ++ job_event JobEventKind.cancelled j' ∷ [])
        × ((b : Submission R)
            → process repository b id (cancel repository c id s).0
              ≡ ((cancel repository c id s).0, none))
  unfolding withdraw_change
  cancel-process {j} found open_status held =
      let (a, active) = mutate-Applied repository c.now id (withdraw_change c.t) s found in
      let (cancelled, e) = cancel_held_lem found open_status held in
      (
        a.job,
        ap (λ (r : Inner R × Result Job). r.1) e,
        cancelled,
        ap (λ (r : Inner R × Result Job). r.0.events) e ∙ a.events ∙ ground arith,
        λ b.
            process_dropped repository b id _
              (ap (λ (r : Inner R × Result Job). lookup id r.0.active) e ∙ active ∙ ground arith),
      )
