-- ===== src/Engine/Restart/Laws.antt =====
-- How `reconcile_after_restart` of print-core/src/engine/mod.rs settles what an earlier process left
-- (docs/print-job-lifecycle.md, "Agent restart and shutdown").
use kiln_print.Prelude.{
  ℕ, String, Bool, ◌≡◌, refl, sym, ap, subst, ◌∙◌, ◌⊎◌, inl, inr, true, false, not, Option, none,
  some, List, [], ◌∷◌, ◌++◌, arith, ◌==◌, all, any, All, if◌then◌else◌, lookup, insert,
  lookup-insert,
}
use kiln_print.Error.{ErrorCode, PrintError, text, print_failed, printer_not_found}
use kiln_print.Job.{Job, JobStatus, DeliveryStage, CompletionEvidence, is_terminal}
use kiln_print.Printer.{Printer}
use kiln_print.Repository.{JobRepository}
use kiln_print.Engine.Types.{Inner, JobEventKind, job_event}
use kiln_print.Engine.Changes.{fail_change, complete_change}
use kiln_print.Engine.Changes.Failing.{FailsWith, fail-FailsWith, touch-FailsWith}
use kiln_print.Engine.Mutate.{mutate-Applied, lookup-mutate, log}
use kiln_print.Engine.Monitor.Laws.{is_spooled}
use kiln_print.Engine.Restart.{
  Monitor, fail_job, reconcile_one, reconcile_all, push, lost_printer, interrupted, restarted,
}

-- What is made of a job: its monitor is started again, or it is settled.
pub data Fate : Type 0 where
  resumes : Printer → ℕ → Fate
  fails : ErrorCode → Bool → String → Fate
  completes : Fate

-- The table of the document, by the error's code, whether it is recoverable, and the outcome in its
-- details; the stage of a job whose bytes a device has is not in the document.
abbrev pub fate : DeliveryStage → Option ℕ → Option Printer → Fate
fate DeliveryStage.spooler_accepted (some spooler_id) (some printer) = resumes printer spooler_id
fate DeliveryStage.spooler_accepted _ _ = fails printer_not_found false "UNKNOWN"
fate DeliveryStage.submitting _ _ = fails print_failed false "UNKNOWN"
fate DeliveryStage.request_accepted _ _ = fails print_failed true "NOT_PRINTED"
fate DeliveryStage.device_delivered _ _ = completes

-- The error that the job keeps.
abbrev pub Reports : ErrorCode → Bool → String → Job → Type 0
Reports code recoverable named j =
    (e : PrintError) × (j.error ≡ some e)
    × (e.error_code ≡ code)
    × (e.recoverable ≡ recoverable)
    × (e.details ≡ some (("outcome", text named) ∷ []))

abbrev pub Meets : {R : Type 0} → Fate → ℕ → Inner R → Inner R × Option Monitor → Type 0
Meets (resumes printer spooler_id) id s (s', m) =
    (s' ≡ s) × (m ≡ some (record { job_id = id; printer = printer; spooler_job_id = spooler_id }))
Meets (fails code recoverable named) id s (s', m) =
    (m ≡ none)
    × (lookup id s'.active ≡ none)
    × ((j : Job) × (j.status ≡ JobStatus.failed)
        × Reports code recoverable named j
        × (s'.events ≡ s.events ++ job_event JobEventKind.failed j ∷ []))
Meets completes id s (s', m) =
    (m ≡ none)
    × (lookup id s'.active ≡ none)
    × ((j : Job) × (j.completion ≡ some CompletionEvidence.bytes_delivered)
        × (s'.events ≡ s.events ++ job_event JobEventKind.completed j ∷ []))

-- What the store says of a job that is not terminal: bytes are only ever delivered of a queued or
-- printing job.
abbrev pub IsPending : Job → Type 0
IsPending j =
    (is_terminal j.status ≡ false)
    × (j.delivery ≡ DeliveryStage.device_delivered → is_spooled j.status ≡ true)

abbrev pub Distinct : List Job → Type 0
Distinct [] = Unit {0}
Distinct (j ∷ js) = (all (λ (k : Job). not (k.job_id == j.job_id)) js ≡ true) × Distinct js

abbrev pub IsMonitored : ℕ → List Monitor → Type 0
IsMonitored id ms = any (λ (m : Monitor). m.job_id == id) ms ≡ true

abbrev pub Settled : {R : Type 0} → Inner R → List Monitor → Job → Type 0
Settled s ms j = (lookup j.job_id s.active ≡ none) ⊎ IsMonitored j.job_id ms

Settled-push :
    {R : Type 0} (s : Inner R) (m : Option Monitor) (ms : List Monitor) (js : List Job)
    → All (Settled s ms) js
    → All (Settled s (push m ms)) js
Settled-push s m ms [] h = tt
Settled-push s none ms (j ∷ js) h = h
Settled-push s (some m) ms (j ∷ js) h = (
  elim h.0 [ inl gone ↦ inl gone | inr seen ↦ inr (ground arith) ],
  Settled-push s (some m) ms js h.1,
)

Meets-cases :
    {R : Type 0} (f : Fate) (id : ℕ) (s : Inner R) (r : Inner R × Option Monitor)
    → Meets f id s r
    → (lookup id r.0.active ≡ none) ⊎ ((m : Monitor) × (r.1 ≡ some m) × (m.job_id ≡ id))
Meets-cases (resumes printer n) id s (s', m) h = inr (_, h.1, refl)
Meets-cases (fails code recoverable named) id s (s', m) h = inl h.1
Meets-cases completes id s (s', m) h = inl h.1

module _ {R : Type 0} (repository : JobRepository R) (clock : ℕ → ℕ × ℕ) where
  fail_job-Meets :
      (id : ℕ) (e : PrintError) (named : String) (j : Job) (s : Inner R)
      → e.details ≡ some (("outcome", text named) ∷ [])
      → lookup id s.active ≡ some j
      → is_terminal j.status ≡ false
      → Meets (fails e.error_code e.recoverable named) id s (fail_job repository clock id e s, none)
  unfolding fail_job
  fail_job-Meets id e named j s says found open_status =
      let (a, active) =
        mutate-Applied repository (clock id).1 id (fail_change (clock id).0 e) s found in
      let (told, f) = fail-FailsWith (clock id).0 e j open_status in
      let g = subst (FailsWith e j) (sym a.result) (touch-FailsWith e j _ a.job.updated_at f) in
      (
        refl,
        active ∙ ap (λ k. if is_terminal k then none else some a.job) f.status,
        (
          a.job,
          g.status,
          (
            g.error.recorded,
            g.error.held,
            g.error.code,
            g.error.recoverable,
            g.error.details ∙ says,
          ),
          a.events ∙ ap (λ k. s.events ++ log k a.job) told,
        ),
      )

  -- After a restart an active job that is not terminal meets the fate that the document's table
  -- names for its delivery stage, with the one event that belongs to it: its monitor is to start
  -- again, or it fails with the code, the outcome and the recoverability of the table. A job of which
  -- a device has the bytes, which the table leaves out, is completed as delivered, if it was queued
  -- or printing.
  pub reconcile_one-Meets :
      (id : ℕ) (d : DeliveryStage) (spooler_id : Option ℕ) (printer : Option Printer) (j : Job)
      (s : Inner R)
      → lookup id s.active ≡ some j
      → is_terminal j.status ≡ false
      → (d ≡ DeliveryStage.device_delivered → is_spooled j.status ≡ true)
      → Meets
          (fate d spooler_id printer)
          id
          s
          (reconcile_one repository clock id d spooler_id printer s)
  unfolding reconcile_one complete_change lost_printer interrupted restarted
  reconcile_one-Meets id DeliveryStage.spooler_accepted (some n) (some p) j s found o held =
      (refl, refl)
  reconcile_one-Meets id DeliveryStage.spooler_accepted (some n) none j s found o held =
      fail_job-Meets id lost_printer "UNKNOWN" j s refl found o
  reconcile_one-Meets id DeliveryStage.spooler_accepted none p j s found o held =
      fail_job-Meets id lost_printer "UNKNOWN" j s refl found o
  reconcile_one-Meets id DeliveryStage.submitting n p j s found o held =
      fail_job-Meets id interrupted "UNKNOWN" j s refl found o
  reconcile_one-Meets id DeliveryStage.request_accepted n p j s found o held =
      fail_job-Meets id restarted "NOT_PRINTED" j s refl found o
  reconcile_one-Meets id DeliveryStage.device_delivered n p j s found o held =
      let spooled = held refl in
      let (a, active) =
        mutate-Applied repository (clock id).1 id
          (complete_change (clock id).0 CompletionEvidence.bytes_delivered) s found in
      (
        refl,
        active ∙ ground arith,
        (a.job, ap (λ (x : Job). x.completion) a.result ∙ ground arith, a.events ∙ ground arith),
      )

  -- Another job is not touched.
  reconcile_one-other :
      (id k : ℕ) (d : DeliveryStage) (n : Option ℕ) (p : Option Printer) (s : Inner R)
      → (id == k) ≡ false
      → lookup k (reconcile_one repository clock id d n p s).0.active ≡ lookup k s.active
  unfolding reconcile_one fail_job
  reconcile_one-other id k DeliveryStage.spooler_accepted (some n) (some p) s h = refl
  reconcile_one-other id k DeliveryStage.spooler_accepted (some n) none s h =
      lookup-mutate repository _ id k _ s h
  reconcile_one-other id k DeliveryStage.spooler_accepted none p s h =
      lookup-mutate repository _ id k _ s h
  reconcile_one-other id k DeliveryStage.submitting n p s h = lookup-mutate repository _ id k _ s h
  reconcile_one-other id k DeliveryStage.request_accepted n p s h =
      lookup-mutate repository _ id k _ s h
  reconcile_one-other id k DeliveryStage.device_delivered n p s h =
      lookup-mutate repository _ id k _ s h

  reconcile_all-other :
      (cached : String → Option Printer) (k : ℕ) (js : List Job) (s : Inner R)
      → all (λ (j : Job). not (j.job_id == k)) js ≡ true
      → lookup k (reconcile_all repository clock cached js s).0.active ≡ lookup k s.active
  unfolding reconcile_all
  reconcile_all-other cached k [] s h = refl
  reconcile_all-other cached k (j ∷ js) s h =
      reconcile_all-other cached k js _ (ground arith)
      ∙ reconcile_one-other j.job_id k j.delivery j.spooler_job_id _
          (record s { active = insert j.job_id j s.active }) (ground arith)
      ∙ lookup-insert j.job_id k j s.active
      ∙ ground arith

  -- Settled by the first step, and left alone by the others.
  head-Settled :
      (d : DeliveryStage) (n : Option ℕ) (p : Option Printer) (j : Job) (s s' : Inner R)
      (ms : List Monitor)
      → lookup j.job_id s.active ≡ some j
      → IsPending j
      → d ≡ j.delivery
      → lookup j.job_id s'.active
        ≡ lookup j.job_id (reconcile_one repository clock j.job_id d n p s).0.active
      → Settled s' (push (reconcile_one repository clock j.job_id d n p s).1 ms) j
  head-Settled d n p j s s' ms found pending same kept =
      let m =
        reconcile_one-Meets j.job_id d n p j s found pending.0 (λ e. pending.1 (sym same ∙ e)) in
      elim (Meets-cases _ j.job_id s _ m) [
        | inl gone ↦ inl (kept ∙ gone)
        | inr (w, e, id) ↦ inr (rw e (ground arith))
      ]

  -- After a restart no job of the store is left in limbo: each is out of the table of active jobs,
  -- or one of the monitors that are started follows it. The jobs have distinct ids and are not
  -- terminal; one whose bytes were delivered is queued or printing.
  pub reconcile_all-Settled :
      (cached : String → Option Printer) (js : List Job) (s : Inner R)
      → Distinct js
      → All IsPending js
      → All
          (Settled
            (reconcile_all repository clock cached js s).0
            (reconcile_all repository clock cached js s).1)
          js
  unfolding reconcile_all
  reconcile_all-Settled cached [] s d p = tt
  reconcile_all-Settled cached (j ∷ js) s d p =
      let printer : Option Printer = elim j.printer_id [ none ↦ none | some id ↦ cached id ] in
      let woken = record s { active = insert j.job_id j s.active } in
      let (s', m) =
        reconcile_one repository clock j.job_id j.delivery j.spooler_job_id printer woken in
      let (s'', ms) = reconcile_all repository clock cached js s' in
      (
        head-Settled j.delivery j.spooler_job_id printer j woken s'' ms
            (lookup-insert j.job_id j.job_id j s.active ∙ ground arith) p.0 refl
            (reconcile_all-other cached j.job_id js s' d.0),
        Settled-push s'' m ms js (reconcile_all-Settled cached js s' d.1 p.1),
      )
