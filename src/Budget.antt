-- ===== src/Budget.antt =====
-- The global byte budget of print-core/src/queue.rs. `used` is one atomic `u64`.
pub mod Interleaving
use kiln_print.Prelude.{
  ℕ, ◌+◌, ◌-◌, ◌%◌, ◌^◌, Bool, true, false, Option, none, some, ltb, if◌then◌else◌,
}

pub record ByteBudget : Type 0 where
  pub used : ℕ
  pub limit : ℕ

abbrev pub u64_mod : ℕ
u64_mod = 2 ^ 64

-- `u64::checked_add`.
abbrev pub checked_add : ℕ → ℕ → Option ℕ
checked_add a b = if ltb (a + b) u64_mod then some (a + b) else none

unfoldable pub new : ℕ → ByteBudget
new limit = record { used = 0; limit = limit }

-- The value that an iteration of the loop in `try_reserve` wants to write, having read `current`;
-- `none` is its early return.
unfoldable pub next_used : ℕ → ℕ → ℕ → Option ℕ
next_used limit bytes current = elim (checked_add current bytes) [
  | none ↦ none
  | some next ↦ if ltb limit next then none else some next
]

-- `compare_exchange_weak`: the exchange happens if the value is the expected one, and may fail even
-- then (`spurious`). The answer is the value read on failure.
unfoldable pub exchange : Bool → ℕ → ℕ → ℕ → ℕ × Option ℕ
exchange true current next used = (used, some used)
exchange false current next used =
    if ltb used current
    then (used, some used)
    else if ltb current used
    then (used, some used)
    else (next, none)

-- `try_reserve` with no other thread at work and no spurious failure: the first exchange succeeds.
unfoldable pub try_reserve : ByteBudget → ℕ → ByteBudget × Bool
unfolding next_used
try_reserve b bytes = elim (next_used b.limit bytes b.used) [
  | none ↦ (b, false)
  | some next ↦ (record b { used = next }, true)
]

-- `fetch_sub`, which wraps.
unfoldable pub release : ℕ → ℕ → ℕ
release used bytes = (used + u64_mod - bytes) % u64_mod
