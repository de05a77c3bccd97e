-- ===== src/Engine/Monitor.antt =====
-- print-core/src/engine/monitor.rs: the task that follows a spooled job until it is terminal.
pub mod Laws
pub mod Backoff
use kiln_print.Prelude.{
  ℕ, ◌+◌, ◌*◌, ◌/◌, min, max, Bool, true, false, not, Option, none, some, is_some, List, [], ◌∷◌,
  any, ◌==◌, if◌then◌else◌, Map, lookup,
}
use kiln_print.Error.{PrintError, Result, ok, err}
use kiln_print.Job.{Job, is_terminal}
use kiln_print.Repository.{JobRepository}
use kiln_print.Engine.Types.{Inner, Mutated, ProviderJobState}
use kiln_print.Engine.Changes.{monitor_change}
use kiln_print.Engine.{mutate}

pub data Step : Type 0 where
  done changed unchanged : Step

abbrev pub step_of : Option Mutated → Step
step_of none = done
step_of (some m) =
    if is_terminal m.job.status then done else if is_some m.event then changed else unchanged

abbrev pub is_cancelling : {R : Type 0} → ℕ → Inner R → Bool
is_cancelling id s = any (λ k. k == id) s.cancelling

abbrev pub is_active : {R : Type 0} → ℕ → Inner R → Bool
is_active id s = is_some (lookup id s.active)

-- What one round of the loop meets. `others` is what all other tasks do to the shared state while
-- the monitor sleeps, and `meanwhile` while it waits for the provider's answer; `t` and `now` are
-- the two readings of the clock.
pub record Poll (R : Type 0) : Type 0 where
  pub shut_down : Bool
  pub others : Inner R → Inner R
  pub meanwhile : Inner R → Inner R
  pub answer : Result ProviderJobState
  pub t : ℕ
  pub now : ℕ

-- The variables of the loop; `finished` is set by `return`. Intervals are in nanoseconds.
pub record Watch (R : Type 0) : Type 0 where
  pub inner : Inner R
  pub interval : ℕ
  pub failures : ℕ
  pub finished : Bool

abbrev pub next_interval : ℕ → ℕ → ℕ → Step → ℕ
next_interval base limit interval done = interval
next_interval base limit interval changed = base
next_interval base limit interval unchanged = min (interval * 3 / 2) limit

module _ {R : Type 0} (repository : JobRepository R) where
  unfoldable pub apply : ℕ → ℕ → ℕ → ProviderJobState → Inner R → Inner R × Step
  apply t now id state s =
      let (s', m) = mutate repository now id (monitor_change t (is_cancelling id s) state) s in
      (s', step_of m)

  abbrev is_done : Step → Bool
  is_done done = true
  is_done _ = false

  -- The `match` on the provider's answer.
  unfoldable pub answered : ℕ → ℕ → ℕ → Poll R → Watch R → Watch R
  unfolding apply
  answered base limit id p w = elim p.answer [
    | ok state ↦
        let (s, step) = apply p.t p.now id state w.inner in
        record {
          inner = s;
          interval = next_interval base limit w.interval step;
          failures = 0;
          finished = is_done step;
        }
    | err e ↦ record w { interval = limit; failures = w.failures + 1 }
  ]

  unfoldable pub poll_once : ℕ → ℕ → ℕ → Poll R → Watch R → Watch R
  poll_once base limit id p w =
      let slept = record w { inner = p.others w.inner } in
      let waited = record slept { inner = p.meanwhile slept.inner } in
      let asked = answered base limit id p waited in
      if p.shut_down
      then record slept { finished = true }
      else if is_active id slept.inner
      then asked
      else record slept { finished = true }

  -- A round of a finished loop does nothing.
  unfoldable pub watch : ℕ → ℕ → ℕ → List (Poll R) → Watch R → Watch R
  watch base limit id [] w = w
  watch base limit id (p ∷ ps) w =
      watch base limit id ps (if w.finished then w else poll_once base limit id p w)

  -- `run`, for a provider that is registered.
  unfoldable pub run : ℕ → ℕ → ℕ → List (Poll R) → Inner R → Watch R
  unfolding watch
  run base max_interval id polls s =
      watch base (max max_interval base) id polls
        (record { inner = s; interval = base; failures = 0; finished = false })
