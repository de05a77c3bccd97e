-- ===== src/Prelude/Maps.antt =====
-- A map keyed by numbers, as an association list: `HashMap` where the program does not use its
-- order. `insert` replaces the entry in place and a new entry goes to the end.
use Prim.Native.Nat.{ℕ}
use mathlib.Core.Path.{◌≡◌, refl}
use mathlib.Core.Option.{Option, none, some}
use mathlib.Core.List.{List, [], ◌∷◌}
use native.Mathlib.Omega.{arith}
use kiln_print.Prelude.Tests.{◌==◌, if◌then◌else◌}

abbrev pub Map {ℓ} : Type ℓ → Type ℓ
Map V = List (ℕ × V)

module _ {ℓ} {V : Type ℓ} where
  abbrev pub values : Map V → List V
  values [] = []
  values ((_, entry) ∷ rest) = entry ∷ values rest

  unfoldable pub lookup : ℕ → Map V → Option V
  lookup key [] = none
  lookup key ((at, entry) ∷ rest) = if at == key then some entry else lookup key rest

  unfoldable pub remove : ℕ → Map V → Map V
  remove key [] = []
  remove key ((at, entry) ∷ rest) =
      let kept = remove key rest in if at == key then kept else (at, entry) ∷ kept

  pub lookup-remove :
      (k j : ℕ) (m : Map V) → lookup j (remove k m) ≡ (if k == j then none else lookup j m)
  unfolding lookup remove
  lookup-remove k j [] = ground arith
  lookup-remove k j ((i, w) ∷ m) = ground (arith, lookup-remove k j m)

  unfoldable pub insert : ℕ → V → Map V → Map V
  insert key new [] = (key, new) ∷ []
  insert key new ((at, entry) ∷ rest) =
      if at == key then (key, new) ∷ rest else (at, entry) ∷ insert key new rest

  -- Only the entry of the key that was set is another one.
  pub lookup-insert :
      (key other : ℕ) (new : V) (rest : Map V)
      → lookup other (insert key new rest) ≡ (if key == other then some new else lookup other rest)
  unfolding lookup insert
  lookup-insert key other new [] = refl
  lookup-insert key other new ((at, entry) ∷ rest) =
      ground (arith, lookup-insert key other new rest)

pub ruleset map_laws = (lookup-insert, lookup-remove)
