-- ===== src/Queues/Laws.antt =====
-- Each printer has one queue and one worker at a time.
use kiln_print.Prelude.{
  ℕ, ◌≡◌, ◌≢◌, refl, ◌∙◌, not, is_some, inl, inr, String, Bool, false, some, List, [], ◌∷◌, arith,
  str_eq, eq_iff, if◌then◌else◌, Option-cases,
}
use kiln_print.Queues.{get, put, PrinterQueues, still_open, sender_for}

pub get-put :
    {S : Type 0} (k j : String) (v : S) (m : List (String × S))
    → get j (put k v m) ≡ (if str_eq k j then some v else get j m)
unfolding get put
get-put k j v [] = refl
get-put k j v ((i, w) ∷ m) = ground (arith, eq_iff k j, eq_iff i k, eq_iff i j, get-put k j v m)

module _ {S : Type 0} (is_closed : S → Bool) (channel : ℕ → S) where
  again :
      (p : String) (q : PrinterQueues S) (s : S)
      → get p q.senders ≡ some s
      → is_closed s ≡ false
      → sender_for is_closed channel p q ≡ (s, q, false)
  unfolding sender_for
  again p q s found opened = rw (found, sender_for) (rw opened refl)

  stored :
      (p : String) (q : PrinterQueues S)
      → get p (sender_for is_closed channel p q).1.senders
        ≡ some (sender_for is_closed channel p q).0
  unfolding sender_for
  stored p q = elim (Option-cases (still_open is_closed (get p q.senders))) [
    | inl e ↦ rw (e, sender_for) (get-put p p _ q.senders ∙ ground (arith, eq_iff p p))
    | inr (s, e) ↦ rw (e, sender_for) (ground arith)
  ]

  others_stay :
      (p r : String) (q : PrinterQueues S)
      → r ≢ p
      → get r (sender_for is_closed channel p q).1.senders ≡ get r q.senders
  unfolding sender_for
  others_stay p r q other = elim (Option-cases (still_open is_closed (get p q.senders))) [
    | inl e ↦ rw (e, sender_for) (get-put p r _ q.senders ∙ ground (arith, eq_iff p r, other))
    | inr (s, e) ↦ rw (e, sender_for) refl
  ]

  -- A worker is spawned exactly if the printer has no open queue; the answer is the printer's queue
  -- from then on, and the queues of other printers stay.
  pub sender_for_lem :
      (p : String) (q : PrinterQueues S)
      → let (sender, q', spawned) = sender_for is_closed channel p q in
        (spawned ≡ not (is_some (still_open is_closed (get p q.senders))))
        × (get p q'.senders ≡ some sender)
        × ((r : String) → r ≢ p → get r q'.senders ≡ get r q.senders)
        × (is_closed sender ≡ false → sender_for is_closed channel p q' ≡ (sender, q', false))
  unfolding sender_for
  sender_for_lem p q = (
    ground arith,
    stored p q,
    λ r other. others_stay p r q other,
    λ opened. again p _ _ (stored p q) opened,
  )
