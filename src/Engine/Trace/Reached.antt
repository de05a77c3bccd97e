-- ===== src/Engine/Trace/Reached.antt =====
-- What every state that the engine reaches keeps of a state that it started from
-- (print-core/src/engine/mod.rs: mutate, track, reconcile_after_restart).
use kiln_print.Prelude.{
  ℕ, ◌++◌, ◌≡◌, refl, sym, ap, subst, ◌∙◌, ◌⊎◌, inl, inr, some, arith, ◌==◌, if◌then◌else◌,
  Bool-cases, Option-cases, lookup, lookup-insert, insert,
}
use kiln_print.Job.{Job, is_terminal}
use kiln_print.Repository.{JobRepository}
use kiln_print.Repository.Laws.{IsReliable}
use kiln_print.Engine.Types.{Inner, created}
use kiln_print.Engine.Events.{Cause, change_of}
use kiln_print.Engine.Mutate.{lookup-settle, log}
use kiln_print.Engine.{mutate, apply_change, track}
use kiln_print.Engine.Trace.{
  ended, ended-append, Step, tracks, changes, wakes, marks, Reach, here, next, IsConsistent,
  applied, ended_after, silent_before, step-IsConsistent,
}

-- The job is in the table, or its end was announced.
abbrev pub IsFollowed : {R : Type 0} → ℕ → Inner R → Type 0
IsFollowed id s = ((j : Job) × (lookup id s.active ≡ some j)) ⊎ (ended id s.events ≡ 1)

insert-IsFollowed :
    {R : Type 0} (j : Job) (k : ℕ) (s s' : Inner R)
    → s'.active ≡ insert j.job_id j s.active
    → ended k s'.events ≡ ended k s.events
    → IsFollowed k s
    → IsFollowed k s'
insert-IsFollowed j k s s' table same (inr e) = inr (same ∙ e)
insert-IsFollowed j k s s' table same (inl (x, h)) =
    let found : lookup k s'.active ≡ (if j.job_id == k then some j else lookup k s.active) =
      ap (lookup k) table ∙ lookup-insert j.job_id k j s.active in
    elim (Bool-cases (j.job_id == k)) [
      | inl hit ↦ inl (j, found ∙ rw hit refl)
      | inr miss ↦ inl (x, found ∙ rw miss h)
    ]

module _ {R : Type 0} {repository : JobRepository R} (reliable : IsReliable repository) where
  apply_change-IsFollowed :
      (now id : ℕ) (cause : Cause) (before : Job) (s : Inner R) (k : ℕ)
      (found : lookup id s.active ≡ some before) (consistent : IsConsistent repository s)
      → IsFollowed k s
      → IsFollowed k (apply_change repository now id before (change_of cause) s).0
  apply_change-IsFollowed now id cause before s k found consistent followed =
      let a = applied reliable now id cause before s found consistent in
      let told = ended_after reliable now id cause before s found consistent k in
      let there = ap (lookup k) a.active ∙ lookup-settle id k a.job s.active in
      elim (Bool-cases (id == k)) [
        | inl hit ↦
            let silent = silent_before reliable now id cause before s found consistent k hit in
            elim (Bool-cases (is_terminal a.job.status)) [
              | inl over ↦ inr (told ∙ rw (over, hit) (ground (arith, silent)))
              | inr open_status ↦ inl (a.job, there ∙ rw (hit, open_status) refl)
            ]
        | inr miss ↦ elim followed [
          | inl (x, h) ↦ inl (x, there ∙ rw miss h)
          | inr e ↦ inr (ground (arith, told, miss, e))
        ]
      ]

  mutate-IsFollowed :
      (now id : ℕ) (cause : Cause) (s : Inner R) (k : ℕ)
      → IsConsistent repository s
      → IsFollowed k s
      → IsFollowed k (mutate repository now id (change_of cause) s).0
  unfolding mutate
  mutate-IsFollowed now id cause s k consistent followed =
      elim (Option-cases (lookup id s.active)) [
        | inl e ↦ rw (e, mutate) followed
        | inr (before, e) ↦
            rw (e, mutate) (apply_change-IsFollowed now id cause before s k e consistent followed)
      ]

  track-IsFollowed :
      (j : Job) (s : Inner R) (k : ℕ) → IsFollowed k s → IsFollowed k (track repository j s).0
  unfolding track
  track-IsFollowed j s k followed =
      rw (reliable.insert_ok s.repo j, track)
        (insert-IsFollowed j k s
          (record s {
            repo = (repository.insert_job s.repo j).0;
            active = insert j.job_id j s.active;
            events = s.events ++ log (some created) j;
          })
          refl (ground (arith, ended-append k s.events (log (some created) j))) followed)

  step-IsFollowed :
      {s s' : Inner R} (k : ℕ)
      → IsConsistent repository s
      → Step repository s s'
      → IsFollowed k s
      → IsFollowed k s'
  step-IsFollowed {s} {s'} k consistent (tracks j v o fresh e) f =
      subst (IsFollowed k) (sym e) (track-IsFollowed j s k f)
  step-IsFollowed {s} {s'} k consistent (changes now id cause e) f =
      subst (IsFollowed k) (sym e) (mutate-IsFollowed now id cause s k consistent f)
  step-IsFollowed {s} {s'} k consistent (wakes j v o held fresh e) f =
      subst (IsFollowed k) (sym e)
        (insert-IsFollowed j k s (record s { active = insert j.job_id j s.active }) refl refl f)
  step-IsFollowed {s} {s'} k consistent (marks ids e) f =
      subst (IsFollowed k) (sym e) (elim f [ inl there ↦ inl there | inr over ↦ inr over ])

  -- Over a reliable store and from a consistent state, every interleaving of steps (a new job under an
  -- id that was never used, a change of the engine's, the jobs of the store after a restart, marks)
  -- leads to a consistent state: the table holds only well-formed jobs that are not terminal, each
  -- under its own id and stored as it is, and the end of each job was announced at most once, and not
  -- while it is in the table. And no job gets lost: one that was in the table, or whose end was
  -- announced, is in the table, or its end was announced.
  pub Reach-IsConsistent :
      {s s' : Inner R}
      → IsConsistent repository s
      → Reach repository s s'
      → IsConsistent repository s' × ((k : ℕ) → IsFollowed k s → IsFollowed k s')
  Reach-IsConsistent consistent here = (consistent, λ k f. f)
  Reach-IsConsistent consistent (next r st) =
      let (before, kept) = Reach-IsConsistent consistent r in
      (step-IsConsistent reliable before st, λ k f. step-IsFollowed k before st (kept k f))
