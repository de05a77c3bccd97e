-- ===== src/Engine/Trace.antt =====
-- Any interleaving of the engine's steps: what holds of the job table and of the events sent in
-- every state that the engine can reach.
pub mod Reached
use kiln_print.Prelude.{
  ℕ, ◌+◌, ◌≤◌, ◌≡◌, refl, sym, ap, ap₂, subst, ◌∙◌, inl, inr, Bool, true, false, ◌&&◌, Option, none,
  some, List, [], ◌∷◌, ◌++◌, arith, ◌==◌, if◌then◌else◌, Bool-cases, Option-cases, lookup, insert,
}
use kiln_print.Error
use kiln_print.Job.{Job, is_terminal}
use kiln_print.Job.Wellformed.{IsWellformed}
use kiln_print.Repository.{JobRepository}
use kiln_print.Repository.Laws.{IsReliable}
use kiln_print.Engine.Types.{Inner, JobEventKind, created, EngineEvent, job_event, printer_event}
use kiln_print.Engine.Events.{
  Cause, change_of, change_of-IsSound, change_of-IsHonest, ends, ends_with,
}
use kiln_print.Engine.Invariant.{Inv, track-Inv, apply_change-Inv}
use kiln_print.Engine.Mutate.{apply_change-Applied, Applied, log, settled, inserted}
use kiln_print.Engine.{mutate, apply_change, track}

-- How often the end of a job was announced.
abbrev pub ended : ℕ → List EngineEvent → ℕ
ended id [] = 0
ended id (job_event kind j ∷ es) =
    let rest = ended id es in if ends kind && j.job_id == id then rest + 1 else rest
ended id (printer_event kind p ∷ es) = ended id es

pub ended-append :
    (id : ℕ) (xs ys : List EngineEvent) → ended id (xs ++ ys) ≡ ended id xs + ended id ys
ended-append id [] ys = omega arith
ended-append id (job_event kind j ∷ xs) ys = ground (arith, ended-append id xs ys)
ended-append id (printer_event kind p ∷ xs) ys = ended-append id xs ys

-- A new job has an id that was never used: `Uuid::new_v4`.
pub record IsFresh {R : Type 0} (id : ℕ) (s : Inner R) : Type 0 where
  pub inactive : lookup id s.active ≡ none
  pub silent : ended id s.events ≡ 0

module _ {R : Type 0} (repository : JobRepository R) where
  -- The steps that tasks take on the shared state. The table and the store change under the lock of
  -- `active`, and the event follows at once; so tasks that interleave take a sequence of steps.
  pub data Step (s s' : Inner R) : Type 0 where
    tracks :
        (j : Job)
        → IsWellformed j
        → is_terminal j.status ≡ false
        → IsFresh j.job_id s
        → s' ≡ (track repository j s).0
        → Step s s'
    changes :
        (now id : ℕ) (cause : Cause)
        → s' ≡ (mutate repository now id (change_of cause) s).0
        → Step s s'
    -- After a restart the store's jobs join the table again.
    wakes :
        (j : Job)
        → IsWellformed j
        → is_terminal j.status ≡ false
        → repository.get s.repo j.job_id ≡ Error.ok (some j)
        → IsFresh j.job_id s
        → s' ≡ record s { active = insert j.job_id j s.active }
        → Step s s'
    marks : (ids : List ℕ) → s' ≡ record s { cancelling = ids } → Step s s'

  pub data Reach (s : Inner R) : Inner R → Type 0 where
    here : Reach s s
    next : {t u : Inner R} → Reach s t → Step t u → Reach s u

  -- The invariant of the table, and at most one announced end for each job: none while it is active.
  pub record IsConsistent (s : Inner R) : Type 0 where
    pub table : Inv repository s
    pub at_most_once : (id : ℕ) → ended id s.events ≤ 1
    pub running : (id : ℕ) (j : Job) → lookup id s.active ≡ some j → ended id s.events ≡ 0

pub ended-log :
    (k : ℕ) (e : Option JobEventKind) (j : Job)
    → ended k (log e j) ≡ (if ends_with e && j.job_id == k then 1 else 0)
ended-log k none j = refl
ended-log k (some kind) j = ground arith

module _ {R : Type 0} {repository : JobRepository R} (reliable : IsReliable repository) where
  module _ (now id : ℕ) (cause : Cause) (before : Job) (s : Inner R)
      (found : lookup id s.active ≡ some before) (ok : IsConsistent repository s) where
    abbrev pub after : Inner R
    after = (apply_change repository now id before (change_of cause) s).0

    pub applied :
        Applied id before
          (change_of cause)
          s
          (apply_change repository now id before (change_of cause) s)
    applied = apply_change-Applied repository now id before (change_of cause) s

    same_id : applied.job.job_id ≡ id
    same_id =
        ap (λ (j : Job). j.job_id) applied.result
        ∙ (change_of-IsSound cause).same_job before
        ∙ (ok.table.live id before found).keyed

    -- The change announces the end of its job exactly if the job became terminal.
    pub ended_after :
        (k : ℕ)
        → ended k after.events
          ≡ ended k s.events + (if is_terminal applied.job.status && id == k then 1 else 0)
    ended_after k =
        let honest : ends_with (change_of cause before).1 ≡ is_terminal applied.job.status =
          (change_of-IsHonest cause).ends_iff before (ok.table.live id before found).open_status
          ∙ ap (λ (j : Job). is_terminal j.status) (sym applied.result) in
        ap (ended k) applied.events
        ∙ ended-append k s.events _
        ∙ ap (λ (n : ℕ). ended k s.events + n)
            (ended-log k (change_of cause before).1 applied.job
              ∙ ap₂ (λ (b : Bool) (i : ℕ). if b && i == k then 1 else 0) honest same_id)

    pub silent_before : (k : ℕ) → (id == k) ≡ true → ended k s.events ≡ 0
    silent_before k hit =
        let same : id ≡ k = ground arith in
        ok.running k before (ap (λ i. lookup i s.active) (sym same) ∙ found)

    apply_change-IsConsistent : IsConsistent repository after
    apply_change-IsConsistent = record {
      table =
          apply_change-Inv reliable now id before (change_of cause) s (change_of-IsSound cause)
            found ok.table;
      at_most_once = λ k. elim (Bool-cases (id == k)) [
        | inl hit ↦ ground (arith, ended_after k, silent_before k hit)
        | inr miss ↦ ground (arith, ended_after k, ok.at_most_once k)
      ];
      running = λ k x h.
          elim (settled id k applied.job s.active (ap (lookup k) (sym applied.active) ∙ h)) [
            | inl (same, open_status, e) ↦
                ended_after k ∙ ground (arith, silent_before k (ground arith))
            | inr (other, h') ↦ ended_after k ∙ ground (arith, ok.running k x h')
          ];
    }

  mutate-IsConsistent :
      (now id : ℕ) (cause : Cause) (s : Inner R)
      → IsConsistent repository s
      → IsConsistent repository (mutate repository now id (change_of cause) s).0
  unfolding mutate
  mutate-IsConsistent now id cause s ok = elim (Option-cases (lookup id s.active)) [
    | inl e ↦ rw (e, mutate) ok
    | inr (before, e) ↦ rw (e, mutate) (apply_change-IsConsistent now id cause before s e ok)
  ]

  track-IsConsistent :
      (j : Job) (s : Inner R)
      → IsWellformed j
      → is_terminal j.status ≡ false
      → IsFresh j.job_id s
      → IsConsistent repository s
      → IsConsistent repository (track repository j s).0
  unfolding track
  track-IsConsistent j s v o fresh ok =
      rw (reliable.insert_ok s.repo j, track)
        (record {
          table = rw (reliable.insert_ok s.repo j, track) at (track-Inv reliable j s v o ok.table);
          at_most_once = λ k.
              ground (arith, ended-append k s.events (log (some created) j), ok.at_most_once k);
          running = λ k x h. elim (inserted j.job_id k j x s.active h) [
            | inl (same, e) ↦ rw (← same) (
                ground (arith, ended-append j.job_id s.events (log (some created) j), fresh.silent))
            | inr (other, h') ↦
                ground (arith, ended-append k s.events (log (some created) j), ok.running k x h')
          ];
        })

  wakes-IsConsistent :
      (j : Job) (s : Inner R)
      → IsWellformed j
      → is_terminal j.status ≡ false
      → repository.get s.repo j.job_id ≡ Error.ok (some j)
      → IsFresh j.job_id s
      → IsConsistent repository s
      → IsConsistent repository (record s { active = insert j.job_id j s.active })
  wakes-IsConsistent j s v o held fresh ok = record {
    table = record {
      live = λ k x h. elim (inserted j.job_id k j x s.active h) [
        | inl (same, e) ↦
            rw (← same, ← e)
              (record { keyed = refl; open_status = o; wellformed = v; stored = held })
        | inr (other, h') ↦
            let l = ok.table.live k x h' in
            record {
              keyed = l.keyed;
              open_status = l.open_status;
              wellformed = l.wellformed;
              stored = l.stored;
            }
      ];
    };
    at_most_once = ok.at_most_once;
    running = λ k x h. elim (inserted j.job_id k j x s.active h) [
      | inl (same, e) ↦ rw (← same) fresh.silent
      | inr (other, h') ↦ ok.running k x h'
    ];
  }

  pub step-IsConsistent :
      {s s' : Inner R}
      → IsConsistent repository s
      → Step repository s s'
      → IsConsistent repository s'
  step-IsConsistent {s} {s'} ok (tracks j v o fresh e) =
      subst (IsConsistent repository) (sym e) (track-IsConsistent j s v o fresh ok)
  step-IsConsistent {s} {s'} ok (changes now id cause e) =
      subst (IsConsistent repository) (sym e) (mutate-IsConsistent now id cause s ok)
  step-IsConsistent {s} {s'} ok (wakes j v o held fresh e) =
      subst (IsConsistent repository) (sym e) (wakes-IsConsistent j s v o held fresh ok)
  step-IsConsistent {s} {s'} ok (marks ids e) = subst (IsConsistent repository) (sym e) (record {
    table = record {
      live = λ id j h.
          let l = ok.table.live id j h in
          record {
            keyed = l.keyed;
            open_status = l.open_status;
            wellformed = l.wellformed;
            stored = l.stored;
          };
    };
    at_most_once = ok.at_most_once;
    running = ok.running;
  })
