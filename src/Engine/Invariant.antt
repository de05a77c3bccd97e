-- ===== src/Engine/Invariant.antt =====
-- What holds of the engine's table of active jobs between two changes, and that `mutate` and `track`
-- of print-core/src/engine/mod.rs keep it over a reliable repository.
use kiln_print.Prelude.{
  ℕ, ◌≡◌, sym, ap, subst, ◌∙◌, inl, inr, false, some, arith, ◌==◌, if◌then◌else◌, Option-cases,
  lookup,
}
use kiln_print.Error.{ok}
use kiln_print.Job.{Job, is_terminal}
use kiln_print.Job.Wellformed.{IsWellformed}
use kiln_print.Repository.{JobRepository}
use kiln_print.Repository.Laws.{IsReliable}
use kiln_print.Engine.Types.{Inner, Change}
use kiln_print.Engine.Changes.Sound.{IsSound}
use kiln_print.Engine.Mutate.{
  settled, inserted, active-send, repo-send, persist-cases, persist_result,
}
use kiln_print.Engine.{persist, settle, apply_change, mutate, track}

touch-IsWellformed : (t : ℕ) (j : Job) → IsWellformed j → IsWellformed (record j { updated_at = t })
touch-IsWellformed t j v = ground arith

module _ {R : Type 0} (repository : JobRepository R) where
  -- An active job stands under its own id, is not terminal, is well-formed, and is what the
  -- repository holds.
  pub record IsLive (s : Inner R) (id : ℕ) (j : Job) : Type 0 where
    pub keyed : j.job_id ≡ id
    pub open_status : is_terminal j.status ≡ false
    pub wellformed : IsWellformed j
    pub stored : repository.get s.repo id ≡ ok (some j)

  pub record Inv (s : Inner R) : Type 0 where
    pub live : (id : ℕ) (j : Job) → lookup id s.active ≡ some j → IsLive s id j

module _ {R : Type 0} {repository : JobRepository R} (reliable : IsReliable repository) where
  -- After a change the repository holds the changed job, and no other entry has moved.
  get-persist :
      (now id k : ℕ) (before after : Job) (repo : R)
      → after.job_id ≡ id
      → repository.get repo id ≡ ok (some before)
      → repository.get (persist repository now before after repo).1 k ≡ (
          if id == k
          then ok (some (persist repository now before after repo).0)
          else repository.get repo k)
  get-persist now id k before after repo same held =
      elim (persist-cases repository now before after repo) [
        | inl (e, p) ↦ rw p (rw e (ground arith))
        | inr p ↦ rw p (
            reliable.get-update repo (record after { updated_at = now }) before k
              (ap (repository.get repo) same ∙ held)
            ∙ ap
                (λ i.
                  if i == k
                  then ok (some (record after { updated_at = now }))
                  else repository.get repo k)
                same)
      ]

  module _ (now id : ℕ) (before : Job) (c : Change) (s : Inner R) (sound : IsSound c)
      (found : lookup id s.active ≡ some before) (inv : Inv repository s) where
    lives : IsLive repository s id before
    lives = inv.live id before found

    after : Job
    after = (persist repository now before (c before).0 s.repo).0

    after_same : after.job_id ≡ id
    unfolding after
    after_same =
        ap (λ (j : Job). j.job_id) (persist_result repository now before (c before).0 s.repo)
        ∙ sound.same_job before
        ∙ lives.keyed

    active_after : (apply_change repository now id before c s).0.active ≡ settle id after s.active
    unfolding apply_change after
    active_after = active-send _ _ _

    stored_after :
        (k : ℕ)
        → repository.get (apply_change repository now id before c s).0.repo k
          ≡ (if id == k then ok (some after) else repository.get s.repo k)
    unfolding apply_change after
    stored_after k =
        ap (λ r. repository.get r k) (repo-send _ _ _)
        ∙ get-persist now id k before (c before).0 s.repo (sound.same_job before ∙ lives.keyed)
            lives.stored

    after-IsLive :
        is_terminal after.status ≡ false
        → IsLive repository (apply_change repository now id before c s).0 id after
    unfolding after
    after-IsLive open_status = record {
      keyed = after_same;
      open_status = open_status;
      wellformed =
          subst IsWellformed (sym (persist_result repository now before (c before).0 s.repo))
            (touch-IsWellformed _ _ (sound.keeps before lives.open_status lives.wellformed));
      stored = stored_after id ∙ ground arith;
    }

    pub apply_change-Inv : Inv repository (apply_change repository now id before c s).0
    apply_change-Inv = record {
      live = λ k x h. elim (settled id k after s.active (ap (lookup k) (sym active_after) ∙ h)) [
        | inl (same, open_status, e) ↦
            subst (λ i. IsLive repository (apply_change repository now id before c s).0 i x) same
              (subst (λ y. IsLive repository (apply_change repository now id before c s).0 id y) e
                (after-IsLive open_status))
        | inr (other, h') ↦
            let l = inv.live k x h' in
            record {
              keyed = l.keyed;
              open_status = l.open_status;
              wellformed = l.wellformed;
              stored = stored_after k ∙ rw other l.stored;
            }
      ];
    }

  -- A change that keeps jobs well-formed keeps the invariant, whether or not the job is active.
  pub mutate-Inv :
      (now id : ℕ) (c : Change) (s : Inner R)
      → IsSound c
      → Inv repository s
      → Inv repository (mutate repository now id c s).0
  unfolding mutate
  mutate-Inv now id c s sound inv = elim (Option-cases (lookup id s.active)) [
    | inl e ↦ rw (e, mutate) inv
    | inr (before, e) ↦ rw (e, mutate) (apply_change-Inv now id before c s sound e inv)
  ]

  -- A new job that is well-formed and not terminal joins the table.
  pub track-Inv :
      (j : Job) (s : Inner R)
      → IsWellformed j
      → is_terminal j.status ≡ false
      → Inv repository s
      → Inv repository (track repository j s).0
  unfolding track
  track-Inv j s v o inv =
      rw (reliable.insert_ok s.repo j, track)
        (record {
          live = λ k x h. elim (inserted j.job_id k j x s.active h) [
            | inl (same, e) ↦ record {
              keyed = ap (λ (y : Job). y.job_id) (sym e) ∙ same;
              open_status = ap (λ (y : Job). is_terminal y.status) (sym e) ∙ o;
              wellformed = subst IsWellformed e v;
              stored = reliable.get-insert s.repo j k ∙ ground arith;
            }
            | inr (other, h') ↦
                let l = inv.live k x h' in
                record {
                  keyed = l.keyed;
                  open_status = l.open_status;
                  wellformed = l.wellformed;
                  stored = reliable.get-insert s.repo j k ∙ rw other l.stored;
                }
          ];
        })
