-- ===== src/Examples/Budget.antt =====
-- The byte budget and the printer queues at concrete numbers (print-core/src/queue.rs).
use kiln_print.Prelude.{ℕ, zero, suc, ◌≡◌, refl, Bool, true, false, [], ◌∷◌, arith}
use kiln_print.Budget.{ByteBudget, try_reserve, next_used, exchange}
use kiln_print.Budget.Interleaving.{
  World, IsBalanced, here, next, begins, exchanges, exchanged, sum, Reach-IsBalanced,
}
use kiln_print.Queues.{PrinterQueues}

abbrev start : World
start = record { budget = record { used = 0; limit = 100 }; held = []; trying = [] }

abbrev entered : World
entered = record start { trying = record { bytes = 60; current = 0 } ∷ [] }

start-IsBalanced : IsBalanced start
unfolding sum
start-IsBalanced = record { exact = refl; within = omega arith; word = omega arith }

Reach-IsBalanced_example :
    IsBalanced
      (exchanged entered [] (record { bytes = 60; current = 0 }) [] (exchange false 0 60 0))
unfolding next_used
Reach-IsBalanced_example = Reach-IsBalanced start-IsBalanced (
    next (next here (begins 60 refl))
      (exchanges false 60 [] (record { bytes = 60; current = 0 }) [] refl refl refl))

abbrev half_full : ByteBudget
half_full = record { used = 60; limit = 100 }

-- budget_rejects_over_limit_and_releases_on_drop
refused : (try_reserve half_full 50).1 ≡ false
unfolding try_reserve
refused = refl

fits_exactly : (try_reserve half_full 40).0.used ≡ 100
unfolding try_reserve
fits_exactly = refl

-- A sender is its channel's number; channel 0 is closed.
abbrev dead : ℕ → Bool
dead zero = true
dead (suc n) = false

abbrev queues : PrinterQueues ℕ
queues = record { limit = 128; senders = ("p1", 0) ∷ ("p2", 5) ∷ [] }
