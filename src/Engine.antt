-- ===== src/Engine.antt =====
-- print-core/src/engine/mod.rs: the shared engine state and the functions through which every job
-- changes. The state is explicit: a function that locks `active` and works on it is one step.
pub mod Types
pub mod Changes
pub mod Mutate
pub mod Invariant
pub mod Events
pub mod Names
pub mod Trace
pub mod Monitor
pub mod Worker
pub mod Cancel
pub mod Restart
pub mod Submit
pub mod Discovery
pub mod Queue
use kiln_print.Prelude.{
  ℕ, String, Bool, true, false, ite, Option, none, some, is_some, List, [], ◌∷◌, ◌++◌,
  if◌then◌else◌, Map, lookup, insert, remove,
}
use kiln_print.Error.{Result, ok, err, ok_or, ◌>>=◌}
use kiln_print.Error
use kiln_print.Job.{Job, Job-discrete, is_terminal}
use Types.{JobEventKind, created, EngineEvent, job_event, Inner, Mutated, Change}
use kiln_print.Repository.{JobRepository}

abbrev pub send_job : {R : Type 0} → Option JobEventKind → Job → Inner R → Inner R
send_job none j s = s
send_job (some kind) j s = record s { events = s.events ++ job_event kind j ∷ [] }

-- The entry of `active` is changed in place; a terminal job leaves the table.
abbrev pub settle : ℕ → Job → Map Job → Map Job
settle id j active = if is_terminal j.status then remove id active else insert id j active

module _ {R : Type 0} (repository : JobRepository R) where
  -- `updated_at` is set, and the job persisted, only if the change made a difference. A failure to
  -- persist is logged and no more.
  unfoldable pub persist : ℕ → Job → Job → R → Job × R
  persist now before after repo =
      ite (Job-discrete after before) (after, repo)
        (let j = record after { updated_at = now } in (j, (repository.update repo j).0))

  unfoldable pub apply_change : ℕ → ℕ → Job → Change → Inner R → Inner R × Option Mutated
  unfolding persist
  apply_change now id before change s =
      let (after, event) = change before in
      let (j, repo) = persist now before after s.repo in
      (
        send_job event j (record s { repo = repo; active = settle id j s.active }),
        some (record { job = j; event = event }),
      )

  unfoldable pub mutate : ℕ → ℕ → Change → Inner R → Inner R × Option Mutated
  unfolding apply_change
  mutate now id change s = elim (lookup id s.active) [
    | none ↦ (s, none)
    | some before ↦ apply_change now id before change s
  ]

  -- A new job is stored, then made active and announced.
  unfoldable pub track : Job → Inner R → Inner R × Result (Unit {0})
  track j s =
      let (repo, r) = repository.insert_job s.repo j in
      elim r [
        | ok u ↦ (
          send_job (some created) j (record s { repo = repo; active = insert j.job_id j s.active }),
          ok tt,
        )
        | err e ↦ (record s { repo = repo }, err e)
      ]

  -- The active copy, else the stored one.
  unfoldable pub job : ℕ → Inner R → Result Job
  job id s = elim (lookup id s.active) [
    | some j ↦ ok j
    | none ↦ do found ← repository.get s.repo id; ok_or found (Error.job_not_found_error id)
  ]
