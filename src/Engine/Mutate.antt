-- ===== src/Engine/Mutate.antt =====
-- What `mutate` of print-core/src/engine/mod.rs does to the shared state, for any repository and any
-- closure.
use mathlib.Core.List.{append-nil}
use mathlib.Core.Logic.{if_pos, if_neg}
use kiln_print.Prelude.{
  ℕ, ◌≡◌, refl, sym, ap, ◌∙◌, ◌⊎◌, inl, inr, false, Option, none, some, List, [], ◌∷◌, ◌++◌, arith,
  ◌==◌, if◌then◌else◌, Bool-cases, Option-cases, Map, lookup, insert, lookup-insert, lookup-remove,
}
use kiln_print.Job.{Job, Job-discrete, is_terminal}
use kiln_print.Repository.{JobRepository}
use kiln_print.Engine.Types.{Inner, Mutated, Change, JobEventKind, EngineEvent, job_event}
use kiln_print.Engine.{persist, settle, send_job, apply_change, mutate}

pub lookup-settle :
    (id k : ℕ) (j : Job) (m : Map Job)
    → lookup k (settle id j m)
      ≡ (if id == k then (if is_terminal j.status then none else some j) else lookup k m)
lookup-settle id k j m = ground (arith, lookup-insert id k j m, lookup-remove id k m)

pub settled :
    (id k : ℕ) {x : Job} (j : Job) (m : Map Job)
    → lookup k (settle id j m) ≡ some x
    → ((id ≡ k) × (is_terminal j.status ≡ false) × (j ≡ x))
      ⊎ (((id == k) ≡ false) × (lookup k m ≡ some x))
settled id k {x} j m h =
    let e : (if id == k then (if is_terminal j.status then none else some j) else lookup k m)
        ≡ some x =
      sym (lookup-settle id k j m) ∙ h in
    elim (Bool-cases (id == k)) [
      | inl hit ↦ elim (Bool-cases (is_terminal j.status)) [
        | inl t ↦ absurd (ground arith)
        | inr t ↦ inl (ground arith, t, ground arith)
      ]
      | inr miss ↦ inr (miss, ground arith)
    ]

pub inserted :
    (id k : ℕ) (j x : Job) (m : Map Job)
    → lookup k (insert id j m) ≡ some x
    → ((id ≡ k) × (j ≡ x)) ⊎ (((id == k) ≡ false) × (lookup k m ≡ some x))
inserted id k j x m h =
    let e : (if id == k then some j else lookup k m) ≡ some x = sym (lookup-insert id k j m) ∙ h in
    elim (Bool-cases (id == k)) [
      | inl hit ↦ inl (ground arith, ground arith)
      | inr miss ↦ inr (miss, ground arith)
    ]

-- The event that a change sends, if any.
abbrev pub log : Option JobEventKind → Job → List EngineEvent
log none j = []
log (some kind) j = job_event kind j ∷ []

module _ {R : Type 0} where
  pub active-send :
      (e : Option JobEventKind) (j : Job) (s : Inner R) → (send_job e j s).active ≡ s.active
  active-send none j s = refl
  active-send (some kind) j s = refl

  pub repo-send : (e : Option JobEventKind) (j : Job) (s : Inner R) → (send_job e j s).repo ≡ s.repo
  repo-send none j s = refl
  repo-send (some kind) j s = refl

  events-send :
      (e : Option JobEventKind) (j : Job) (s : Inner R)
      → (send_job e j s).events ≡ s.events ++ log e j
  events-send none j s = sym (append-nil s.events)
  events-send (some kind) j s = refl

  marks-send :
      (e : Option JobEventKind) (j : Job) (s : Inner R) → (send_job e j s).cancelling ≡ s.cancelling
  marks-send none j s = refl
  marks-send (some kind) j s = refl

-- What a change of an active job does to the shared state: the job that results is what the closure
-- made, but for `updated_at`.
pub record Applied {R : Type 0} (id : ℕ) (before : Job) (c : Change) (s : Inner R)
    (r : Inner R × Option Mutated) : Type 0 where
  pub job : Job
  pub result : job ≡ record (c before).0 { updated_at = job.updated_at }
  pub answer : r.1 ≡ some (record { job = job; event = (c before).1 })
  pub active : r.0.active ≡ settle id job s.active
  pub events : r.0.events ≡ s.events ++ log (c before).1 job
  pub marks : r.0.cancelling ≡ s.cancelling

module _ {R : Type 0} (repository : JobRepository R) where
  pub persist-cases :
      (now : ℕ) (before after : Job) (repo : R)
      → ((after ≡ before) × (persist repository now before after repo ≡ (after, repo)))
        ⊎ (persist repository now before after repo
            ≡ (let j = record after { updated_at = now } in (j, (repository.update repo j).0)))
  unfolding persist
  persist-cases now before after repo = elim (Job-discrete after before) [
    | yes e ↦ inl (e, rw (if_pos _ e) refl)
    | no e ↦ inr (rw (if_neg _ e) refl)
  ]

  -- Persisting sets `updated_at` at most.
  pub persist_result :
      (now : ℕ) (before after : Job) (repo : R)
      → (persist repository now before after repo).0
        ≡ record after { updated_at = (persist repository now before after repo).0.updated_at }
  persist_result now before after repo = elim (persist-cases now before after repo) [
    | inl (e, p) ↦ rw p refl
    | inr p ↦ rw p refl
  ]

  pub apply_change-Applied :
      (now id : ℕ) (before : Job) (c : Change) (s : Inner R)
      → Applied id before c s (apply_change repository now id before c s)
  unfolding apply_change
  apply_change-Applied now id before c s = record {
    job = (persist repository now before (c before).0 s.repo).0;
    result = persist_result now before (c before).0 s.repo;
    answer = refl;
    active = active-send _ _ _;
    events = events-send _ _ _;
    marks = marks-send _ _ _;
  }

  -- The outcome of `mutate` on an active job: the changed job, in the table unless it is terminal.
  pub mutate-Applied :
      (now id : ℕ) {before : Job} (c : Change) (s : Inner R)
      → lookup id s.active ≡ some before
      → (a : Applied id before c s (mutate repository now id c s)) × (lookup id
            (mutate repository now id c s).0.active
          ≡ (if is_terminal (c before).0.status then none else some a.job))
  unfolding mutate
  mutate-Applied now id {before} c s found =
      rw (found, mutate)
        (let a = apply_change-Applied now id before c s in
          (
            a,
            ap (lookup id) a.active
                ∙ lookup-settle id id a.job s.active
                ∙ ap
                    (λ (x : Job).
                      if id == id
                      then (if is_terminal x.status then none else some a.job)
                      else lookup id s.active)
                    a.result
                ∙ ground arith,
          ))

  -- A job that is not active is left alone.
  pub mutate_inactive :
      (now id : ℕ) (c : Change) (s : Inner R)
      → lookup id s.active ≡ none
      → mutate repository now id c s ≡ (s, none)
  unfolding mutate
  mutate_inactive now id c s gone = rw (gone, mutate)

  -- Another job is not touched.
  pub lookup-mutate :
      (now id k : ℕ) (c : Change) (s : Inner R)
      → (id == k) ≡ false
      → lookup k (mutate repository now id c s).0.active ≡ lookup k s.active
  unfolding mutate
  lookup-mutate now id k c s other = elim (Option-cases (lookup id s.active)) [
    | inl e ↦ rw (e, mutate) refl
    | inr (before, e) ↦
        rw (e, mutate)
          (ap (lookup k) (apply_change-Applied now id before c s).active
            ∙ lookup-settle id k (apply_change-Applied now id before c s).job s.active
            ∙ rw other refl)
  ]
