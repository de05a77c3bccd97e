-- ===== src/Prelude/Filters.antt =====
-- Lemmas on `All`, `keep`, `find`, `take` and `drop` that the components share.
use Prim.Native.Nat.{ℕ, zero, suc, ◌≤◌}
use mathlib.Core.Path.{◌≡◌, refl, ap, subst}
use mathlib.Core.Logic.{inl, inr}
use mathlib.Core.Bool.{Bool, true, false, ◌&&◌}
use mathlib.Core.Option.{none, some}
use mathlib.Core.List.{List, [], ◌∷◌, ◌++◌, map}
use native.Mathlib.Omega.{arith}
use kiln_print.Prelude.Tests.{if◌then◌else◌, Bool-cases}
use kiln_print.Prelude.Lists.{length, take, drop, keep, find, All}

module _ {A : Type 0} (Q : A → Type 0) where
  pub All-take : (n : ℕ) (xs : List A) → All Q xs → All Q (take n xs)
  All-take zero xs h = tt
  All-take (suc n) [] h = tt
  All-take (suc n) (x ∷ xs) h = (h.0, All-take n xs h.1)

  pub All-drop : (n : ℕ) (xs : List A) → All Q xs → All Q (drop n xs)
  All-drop zero xs h = h
  All-drop (suc n) [] h = tt
  All-drop (suc n) (x ∷ xs) h = All-drop n xs h.1

  pub All-append : (xs ys : List A) → All Q xs → All Q ys → All Q (xs ++ ys)
  All-append [] ys h k = k
  All-append (x ∷ xs) ys h k = (h.0, All-append xs ys h.1 k)

  -- What holds of every element holds of those that pass a test.
  pub All-keep_of : (p : A → Bool) (xs : List A) → All Q xs → All Q (keep p xs)
  All-keep_of p [] h = tt
  All-keep_of p (x ∷ xs) h = elim (Bool-cases (p x)) [
    | inl t ↦ rw (t, keep) (h.0, All-keep_of p xs h.1)
    | inr f ↦ rw (f, keep) (All-keep_of p xs h.1)
  ]

  pub find-All : (p : A → Bool) (xs : List A) (x : A) → All Q xs → find p xs ≡ some x → Q x
  find-All p [] x h e = absurd (ground arith)
  find-All p (y ∷ ys) x h e = elim (Bool-cases (p y)) [
    | inl t ↦ let same : y ≡ x = ground (arith, t, e) in subst Q same h.0
    | inr f ↦ find-All p ys x h.1 (ground (arith, f, e))
  ]

module _ {A : Type 0} (p : A → Bool) where
  pub All-keep : (xs : List A) → All (λ x. p x ≡ true) (keep p xs)
  All-keep [] = tt
  All-keep (x ∷ xs) = elim (Bool-cases (p x)) [
    | inl t ↦ rw (t, keep) (t, All-keep xs)
    | inr f ↦ rw (f, keep) (All-keep xs)
  ]

  pub find-holds : (xs : List A) (x : A) → find p xs ≡ some x → p x ≡ true
  find-holds [] x h = ground arith
  find-holds (y ∷ ys) x h = elim (Bool-cases (p y)) [
    | inl t ↦ ground (arith, t, h)
    | inr n ↦ find-holds ys x (ground (arith, n, h))
  ]

  pub find-none : (xs : List A) → find p xs ≡ none → All (λ x. p x ≡ false) xs
  find-none [] h = tt
  find-none (y ∷ ys) h = elim (Bool-cases (p y)) [
    | inl t ↦ absurd (ground (arith, t, h))
    | inr n ↦ (n, find-none ys (ground (arith, n, h)))
  ]

  pub keep-keep : (q : A → Bool) (xs : List A) → keep p (keep q xs) ≡ keep (λ x. q x && p x) xs
  keep-keep q [] = refl
  keep-keep q (x ∷ xs) = elim (Bool-cases (q x)) [
    | inl t ↦ rw (t, keep) (ap (λ r. if p x then x ∷ r else r) (keep-keep q xs))
    | inr f ↦ rw (f, keep) (keep-keep q xs)
  ]

pub keep_all : {A : Type 0} (xs : List A) → keep (λ x. true) xs ≡ xs
keep_all [] = refl
keep_all (x ∷ xs) = ap (λ r. x ∷ r) (keep_all xs)

pub length-take_le : {A : Type 0} (n : ℕ) (xs : List A) → length (take n xs) ≤ n
length-take_le zero xs = omega arith
length-take_le (suc n) [] = omega arith
length-take_le (suc n) (x ∷ xs) = omega (arith, length-take_le n xs)

pub All-map :
    {A B : Type 0} (Q : B → Type 0) (f : A → B) (xs : List A)
    → All (λ x. Q (f x)) xs
    → All Q (map f xs)
unfolding map
All-map Q f [] h = tt
All-map Q f (x ∷ xs) h = (h.0, All-map Q f xs h.1)

pub All-of : {A : Type 0} (Q : A → Type 0) → ((x : A) → Q x) → (xs : List A) → All Q xs
All-of Q h [] = tt
All-of Q h (x ∷ xs) = (h x, All-of Q h xs)
