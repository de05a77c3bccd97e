-- ===== src/Agent/Task.antt =====
-- A fallible operation that may change a state, as the service's `async fn`s and their `?`.
use kiln_print.Prelude.{◌≡◌, inl, inr, subst, arith}
use kiln_print.Error.{PrintError, Result, ok, err, Result-cases}

abbrev pub Task : Type 0 → Type 0 → Type 0
Task S A = S → S × Result A

module _ {S A : Type 0} where
  abbrev pub pure : A → Task S A
  pure a s = (s, ok a)

  abbrev pub fail : PrintError → Task S A
  fail e s = (s, err e)

  -- An answer that changes no state.
  abbrev pub lift : Result A → Task S A
  lift r s = (s, r)

module _ {S A B : Type 0} where
  abbrev pub step : (A → Task S B) → S → Result A → S × Result B
  step next s (err e) = (s, err e)
  step next s (ok a) = next a s

  infixl 5 ◌>>=◌
  abbrev pub ◌>>=◌ : Task S A → (A → Task S B) → Task S B
  (t >>= next) s = step next (t s).0 (t s).1

  -- What succeeded as a whole succeeded in each part.
  pub bind-ok :
      (t : Task S A) (next : A → Task S B) (s : S) (b : B)
      → ((t >>= next) s).1 ≡ ok b
      → (a : A) × ((t s).1 ≡ ok a) × ((next a (t s).0).1 ≡ ok b)
  bind-ok t next s b h = elim (Result-cases (t s).1) [
    | inl (a, e) ↦ (a, e, subst (λ r. (step next (t s).0 r).1 ≡ ok b) e h)
    | inr (e, f) ↦ absurd (ground (arith, f, h))
  ]
