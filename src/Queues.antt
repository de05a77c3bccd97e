-- ===== src/Queues.antt =====
-- `PrinterQueues` of print-core/src/queue.rs. The channel is tokio's: its senders are a parameter `S`,
-- and what `is_closed`, `max_capacity` and `capacity` answer at the time of a call is an argument.
pub mod Laws
use kiln_print.Prelude.{
  ℕ, ◌-◌, max, String, Bool, true, false, not, Option, none, some, List, [], ◌∷◌, str_eq,
  if◌then◌else◌,
}

module _ {S : Type 0} where
  unfoldable pub get : String → List (String × S) → Option S
  get id [] = none
  get id ((owner, sender) ∷ rest) = if str_eq owner id then some sender else get id rest

  unfoldable pub put : String → S → List (String × S) → List (String × S)
  put id tx [] = (id, tx) ∷ []
  put id tx ((owner, sender) ∷ rest) =
      if str_eq owner id then (id, tx) ∷ rest else (owner, sender) ∷ put id tx rest

pub record PrinterQueues (S : Type 0) : Type 0 where
  pub limit : ℕ
  pub senders : List (String × S)

unfoldable pub new : {S : Type 0} → ℕ → PrinterQueues S
new capacity_per_printer = record { limit = max capacity_per_printer 1; senders = [] }

-- `Option::filter`.
abbrev pub still_open : {S : Type 0} → (S → Bool) → Option S → Option S
still_open is_closed none = none
still_open is_closed (some s) = if is_closed s then none else some s

-- The sender, the new state, and whether a worker was spawned. `channel` makes a channel of the given
-- capacity.
unfoldable pub sender_for :
    {S : Type 0} → (S → Bool) → (ℕ → S) → String → PrinterQueues S → S × PrinterQueues S × Bool
sender_for is_closed channel printer_id q = elim (still_open is_closed (get printer_id q.senders)) [
  | some sender ↦ (sender, q, false)
  | none ↦
      let tx = channel q.limit in (tx, record q { senders = put printer_id tx q.senders }, true)
]

unfoldable pub depth : {S : Type 0} → (S → ℕ) → (S → ℕ) → String → PrinterQueues S → ℕ
depth max_capacity capacity printer_id q = elim (get printer_id q.senders) [
  | none ↦ 0
  | some s ↦ max_capacity s - capacity s
]
