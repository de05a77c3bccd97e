-- ===== src/Engine/Monitor/Backoff.antt =====
-- The polling interval of print-core/src/engine/monitor.rs.
use kiln_print.Prelude.{ℕ, ◌≤◌, List, [], ◌∷◌, arith, if◌then◌else◌, max, inl, inr}
use kiln_print.Error.{Result-cases}
use kiln_print.Repository.{JobRepository}
use kiln_print.Engine.Types.{Inner}
use kiln_print.Engine.Monitor.{
  Poll, Watch, answered, poll_once, watch, run, apply, next_interval, Step, done, changed,
  unchanged,
}

next_interval_bounds :
    (base limit interval : ℕ) (step : Step)
    → base ≤ limit
    → base ≤ interval
    → interval ≤ limit
    → (base ≤ next_interval base limit interval step)
      × (next_interval base limit interval step ≤ limit)
next_interval_bounds base limit interval done b lo hi = (lo, hi)
next_interval_bounds base limit interval changed b lo hi = omega arith
next_interval_bounds base limit interval unchanged b lo hi = omega arith

module _ {R : Type 0} (repository : JobRepository R) (base limit id : ℕ) (room : base ≤ limit) where
  abbrev InBounds : Watch R → Type 0
  InBounds w = (base ≤ w.interval) × (w.interval ≤ limit)

  answered_bounds :
      (p : Poll R) (w : Watch R) → InBounds w → InBounds (answered repository base limit id p w)
  unfolding answered
  answered_bounds p w h = elim (Result-cases p.answer) [
    | inl (state, e) ↦
        rw (e, answered)
          (next_interval_bounds base limit w.interval
            (apply repository p.t p.now id state w.inner).1 room h.0 h.1)
    | inr (error, e) ↦ rw (e, answered) (room, omega arith)
  ]

  poll_once_bounds :
      (p : Poll R) (w : Watch R) → InBounds w → InBounds (poll_once repository base limit id p w)
  unfolding poll_once
  poll_once_bounds p w h =
      ground (arith, answered_bounds p (record w { inner = p.meanwhile (p.others w.inner) }) h)

  watch_bounds :
      (ps : List (Poll R)) (w : Watch R)
      → InBounds w
      → InBounds (watch repository base limit id ps w)
  unfolding watch
  watch_bounds [] w h = h
  watch_bounds (p ∷ ps) w h =
      watch_bounds ps (if w.finished then w else poll_once repository base limit id p w)
        (ground (arith, h, poll_once_bounds p w h))

-- Whatever the provider answers and the other tasks do, the interval stays between the base
-- interval and the larger of the two configured intervals.
pub run_bounds :
    {R : Type 0} (repository : JobRepository R) (base max_interval id : ℕ) (ps : List (Poll R))
    (s : Inner R)
    → (base ≤ (run repository base max_interval id ps s).interval)
      × ((run repository base max_interval id ps s).interval ≤ max max_interval base)
unfolding run
run_bounds repository base max_interval id ps s =
    watch_bounds repository base (max max_interval base) id (omega arith) ps _ (omega arith)
