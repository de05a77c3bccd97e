-- ===== src/Agent/Connection/Recents.antt =====
-- The ids of the recent requests of agent/src/api/ws.rs: what a connection remembers.
use kiln_print.Prelude.{
  ℕ, zero, suc, ◌≡◌, ◌≢◌, refl, sym, subst, ◌≤◌, ◌<◌, ◌⊎◌, inl, inr, String, true, false, List, [],
  ◌∷◌, ◌++◌, All, All-append, arith, length, length-append, ltb, str_eq, eq_iff, Bool-cases, ltb→lt,
}
use kiln_print.Agent.Connection.{
  recent_request_ids, contains, without, Recent, no_ids, forget, remember,
}

abbrev Distinct : List String → Type 0
Distinct [] = Unit
Distinct (x ∷ xs) = (contains xs x ≡ false) × Distinct xs

-- The set holds every id of the order, each id stands in the order once, and there are at most 512.
pub record IsRemembering (r : Recent) : Type 0 where
  pub known : All (λ x. contains r.seen x ≡ true) r.order
  pub distinct : Distinct r.order
  pub few : length r.order ≤ recent_request_ids

-- The id stands in the order, with at most `n` younger ones.
abbrev pub Kept : String → ℕ → List String → Type 0
Kept id n [] = ⊥
Kept id n (x ∷ xs) = ((x ≡ id) × (length xs ≤ n)) ⊎ Kept id n xs

contains-without :
    (old y : String) (seen : List String)
    → y ≢ old
    → contains seen y ≡ true
    → contains (without old seen) y ≡ true
contains-without old y [] n h = h
contains-without old y (x ∷ xs) n h =
    ground (arith, contains-without old y xs, eq_iff x y, eq_iff x old)

All-without :
    (old : String) (seen order : List String)
    → contains order old ≡ false
    → All (λ x. contains seen x ≡ true) order
    → All (λ x. contains (without old seen) x ≡ true) order
All-without old seen [] n h = tt
All-without old seen (x ∷ xs) n h = (
  contains-without old x seen (λ e. absurd (ground (arith, n, (eq_iff x old).1 e))) h.0,
  All-without old seen xs (ground (arith, n)) h.1,
)

All-weaken :
    (id : String) (seen order : List String)
    → All (λ x. contains seen x ≡ true) order
    → All (λ x. contains (id ∷ seen) x ≡ true) order
All-weaken id seen [] h = tt
All-weaken id seen (x ∷ xs) h = (ground (arith, h.0), All-weaken id seen xs h.1)

contains-append :
    (xs : List String) (y x : String)
    → contains xs x ≡ false
    → y ≢ x
    → contains (xs ++ y ∷ []) x ≡ false
contains-append [] y x h n = ground (arith, eq_iff y x)
contains-append (z ∷ zs) y x h n = ground (arith, contains-append zs y x)

Distinct-append :
    (xs : List String) (y : String) → Distinct xs → contains xs y ≡ false → Distinct (xs ++ y ∷ [])
Distinct-append [] y d h = (refl, tt)
Distinct-append (x ∷ xs) y d h = (
  contains-append xs y x d.0 (λ e. absurd (ground (arith, h, (eq_iff x y).1 (sym e)))),
  Distinct-append xs y d.1 (ground (arith, h)),
)

not-contained :
    (id : String) (seen order : List String)
    → contains seen id ≡ false
    → All (λ x. contains seen x ≡ true) order
    → contains order id ≡ false
not-contained id seen [] n h = refl
not-contained id seen (x ∷ xs) n h = elim (Bool-cases (str_eq x id)) [
  | inl t ↦
      let same : x ≡ id = (eq_iff x id).0 t in
      absurd (cc (n, subst (λ (y : String). contains seen y ≡ true) same h.0))
  | inr f ↦ ground (arith, f, not-contained id seen xs n h.1)
]

pub Kept-contained :
    (id : String) (n : ℕ) (seen order : List String)
    → Kept id n order
    → All (λ x. contains seen x ≡ true) order
    → contains seen id ≡ true
Kept-contained id n seen [] k h = absurd k
Kept-contained id n seen (x ∷ xs) (inl here) h =
    subst (λ (y : String). contains seen y ≡ true) here.0 h.0
Kept-contained id n seen (x ∷ xs) (inr later) h = Kept-contained id n seen xs later h.1

Kept-append :
    (id y : String) (n : ℕ) (xs : List String) → Kept id n xs → Kept id (suc n) (xs ++ y ∷ [])
Kept-append id y n [] k = absurd k
Kept-append id y n (x ∷ xs) (inl here) =
    inl (here.0, omega (arith, here.1, length-append {0} xs (y ∷ [])))
Kept-append id y n (x ∷ xs) (inr later) = inr (Kept-append id y n xs later)

Kept-new : (id : String) (xs : List String) → Kept id zero (xs ++ id ∷ [])
Kept-new id [] = inl (refl, omega arith)
Kept-new id (x ∷ xs) = inr (Kept-new id xs)

forget-Kept :
    (id : String) (n : ℕ) (seen order : List String)
    → Kept id n order
    → n < recent_request_ids
    → Kept id n (forget seen order).order
unfolding forget
forget-Kept id n seen [] k h = absurd k
forget-Kept id n seen (x ∷ xs) k h = elim (Bool-cases (ltb recent_request_ids (suc (length xs)))) [
  | inr f ↦ rw (f, forget) k
  | inl t ↦
      rw (t, forget)
        (elim k [
          | inl here ↦
              absurd (omega (arith, h, here.1, ltb→lt recent_request_ids (suc (length xs)) t))
          | inr later ↦ later
        ])
]

forget-IsRemembering :
    (seen order : List String)
    → All (λ x. contains seen x ≡ true) order
    → Distinct order
    → length order ≤ suc recent_request_ids
    → IsRemembering (forget seen order)
unfolding forget
forget-IsRemembering seen [] a d l = record { known = tt; distinct = tt; few = omega arith }
forget-IsRemembering seen (x ∷ xs) a d l =
    elim (Bool-cases (ltb recent_request_ids (suc (length xs)))) [
      | inr f ↦ rw (f, forget) (record { known = a; distinct = d; few = ground (arith, f) })
      | inl t ↦
          rw (t, forget)
            (record {
              known = All-without x seen xs d.0 a.1;
              distinct = d.1;
              few = omega (arith, l);
            })
    ]

module _ (id : String) (r : Recent) (m : IsRemembering r) (new : contains r.seen id ≡ false) where
  pub remember-IsRemembering : IsRemembering (remember id r)
  unfolding remember
  remember-IsRemembering =
      forget-IsRemembering (id ∷ r.seen) (r.order ++ id ∷ [])
        (All-append (λ x. contains (id ∷ r.seen) x ≡ true) r.order (id ∷ [])
          (All-weaken id r.seen r.order m.known) (ground (arith, (eq_iff id id).1 refl), tt))
        (Distinct-append r.order id m.distinct (not-contained id r.seen r.order new m.known))
        (omega (arith, m.few, length-append {0} r.order (id ∷ [])))

  -- What was remembered with `n` younger ids has one more.
  pub remember-Kept :
      (other : String) (n : ℕ)
      → suc n < recent_request_ids
      → Kept other n r.order
      → Kept other (suc n) (remember id r).order
  unfolding remember
  remember-Kept other n h k =
      forget-Kept other (suc n) (id ∷ r.seen) (r.order ++ id ∷ [])
        (Kept-append other id n r.order k) h

  pub remember-new : Kept id zero (remember id r).order
  unfolding remember
  remember-new =
      forget-Kept id zero (id ∷ r.seen) (r.order ++ id ∷ []) (Kept-new id r.order) (omega arith)

pub no_ids-IsRemembering : IsRemembering no_ids
no_ids-IsRemembering = record { known = tt; distinct = tt; few = omega arith }
