-- ===== src/Status/Flags.antt =====
-- Status words: a flag is tested by `word & mask != 0`, and what was seen is kept by `|`.
use Prim.Native.Nat.{bit_and, bit_or, digits, bit_and-bitwise, bit_or-bitwise}
use kiln_print.Prelude.{
  ℕ, zero, suc, ◌+◌, ◌*◌, ◌/◌, ◌%◌, ◌≤◌, min, max, ◌≡◌, refl, subst, ℕ_discrete, Bool, true, not,
  arith, ◌==◌,
}

abbrev pub is_set : ℕ → ℕ → Bool
is_set word mask = not (bit_and word mask == 0)

-- More fuel than digits changes nothing.
module _ (last : ℕ → ℕ) (digit : ℕ → ℕ → ℕ) where
  digits_enough :
      (fuel more word mask : ℕ)
      → word ≤ fuel
      → fuel ≤ more
      → digits last digit fuel word mask ≡ digits last digit more word mask
  digits_enough zero zero word mask h k = refl
  digits_enough zero (suc more) zero mask h k = refl
  digits_enough zero (suc more) (suc word) mask h k = absurd (omega (arith, h))
  digits_enough (suc fuel) zero word mask h k = absurd (omega (arith, k))
  digits_enough (suc fuel) (suc more) zero mask h k = refl
  digits_enough (suc fuel) (suc more) (suc word) mask h k = omega (
    arith,
    digits_enough fuel more (suc word / 2) (mask / 2) (omega (arith, h)) (omega (arith, k)),
  )

and-halves :
    (word mask : ℕ)
    → bit_and word mask ≡ bit_and (word / 2) (mask / 2) * 2 + min (word % 2) (mask % 2)
and-halves zero mask = omega (arith, bit_and-bitwise 0 mask, bit_and-bitwise 0 (mask / 2))
and-halves (suc word) mask = omega (
  arith,
  bit_and-bitwise (suc word) mask,
  bit_and-bitwise (suc word / 2) (mask / 2),
  digits_enough (λ b. zero) min (suc word / 2) word (suc word / 2) (mask / 2) (omega arith)
      (omega arith),
)

or-halves :
    (word other : ℕ)
    → bit_or word other ≡ bit_or (word / 2) (other / 2) * 2 + max (word % 2) (other % 2)
or-halves zero other = omega (arith, bit_or-bitwise 0 other, bit_or-bitwise 0 (other / 2))
or-halves (suc word) other = omega (
  arith,
  bit_or-bitwise (suc word) other,
  bit_or-bitwise (suc word / 2) (other / 2),
  digits_enough (λ b. b) max (suc word / 2) word (suc word / 2) (other / 2) (omega arith)
      (omega arith),
)

-- By induction on a bound of the word that was seen.
seen-kept_below :
    (bound word seen mask : ℕ)
    → seen ≤ bound
    → 1 ≤ bit_and seen mask
    → 1 ≤ bit_and (bit_or word (bit_and seen mask)) mask
seen-kept_below zero word zero mask h k = absurd (omega (arith, k, bit_and-bitwise 0 mask))
seen-kept_below zero word (suc seen) mask h k = absurd (omega (arith, h))
seen-kept_below (suc bound) word seen mask h k =
    let kept = bit_and seen mask in
    let both = bit_or word kept in
    let low = bit_and (seen / 2) (mask / 2) in
    let half : kept / 2 ≡ low = omega (arith, and-halves seen mask) in
    let upper = bit_or (word / 2) low in
    let joined : both ≡ upper * 2 + max (word % 2) (kept % 2) =
      subst (λ x. both ≡ bit_or (word / 2) x * 2 + max (word % 2) (kept % 2)) half
        (or-halves word kept) in
    let upper_of : both / 2 ≡ upper = omega (arith, joined) in
    let tested : bit_and both mask ≡ bit_and upper (mask / 2) * 2 + min (both % 2) (mask % 2) =
      subst (λ x. bit_and both mask ≡ bit_and x (mask / 2) * 2 + min (both % 2) (mask % 2)) upper_of
        (and-halves both mask) in
    elim (ℕ_discrete low 0) [
      | yes e ↦ omega (arith, tested, joined, and-halves seen mask, e, k)
      | no ne ↦
          let above =
            seen-kept_below bound (word / 2) (seen / 2) (mask / 2) (smaller seen bound h)
              (omega (arith, ne)) in
          omega (arith, tested, above)
    ]
  where
    smaller : (seen bound : ℕ) → seen ≤ suc bound → seen / 2 ≤ bound
    smaller seen bound h = omega (arith, h)

-- A flag that was seen is still set in a word that what was seen was added to.
pub seen-kept :
    (word seen mask : ℕ)
    → is_set seen mask ≡ true
    → is_set (bit_or word (bit_and seen mask)) mask ≡ true
seen-kept word seen mask h =
    ground (arith, seen-kept_below seen word seen mask (omega arith) (ground (arith, h)))
