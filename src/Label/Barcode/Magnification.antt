-- ===== src/Label/Barcode/Magnification.antt =====
-- How near a resident font comes to a height at whole magnifications (`pick_font` of
-- protocols/src/label/mod.rs).
use native.Mathlib.Nat.{mul-suc, mul-le-mul_left, mul-div-le, lt-mul-div-succ}
use kiln_print.Prelude.{
  ℕ, suc, ◌+◌, ◌*◌, ◌/◌, ◌≤◌, ◌<◌, ◌≡◌, inl, inr, arith, subst, leb, Bool-cases,
}
use kiln_print.Label.Barcode.{abs_diff, magnification}

-- `n * h` dots are no nearer than `k * h` dots if `k` is the rounded quotient, or the bound on the
-- side of `n`.
nearer_below :
    (target h k n : ℕ)
    → h * n + h ≤ h * k
    → h * k ≤ target + h / 2
    → abs_diff (h * k) target ≤ abs_diff (h * n) target
nearer_below target h k n step low = omega (arith, step, low)

nearer_above :
    (target h k n : ℕ)
    → h * k + h ≤ h * n
    → target + h / 2 < h * k + h
    → abs_diff (h * k) target ≤ abs_diff (h * n) target
nearer_above target h k n step high = omega (arith, step, high)

step_of : (h m n : ℕ) → suc m ≤ n → h * m + h ≤ h * n
step_of h m n l =
    let grown : h * suc m ≤ h * n = mul-le-mul_left h l in
    let plus_one : h * suc m ≡ h * m + h = mul-suc h m in omega (arith, grown, plus_one)

-- No other magnification within the bounds comes nearer.
pub magnification-nearest :
    (max_mult target h n : ℕ)
    → 1 ≤ h
    → 1 ≤ n
    → n ≤ max_mult
    → abs_diff (h * magnification max_mult target h) target ≤ abs_diff (h * n) target
magnification-nearest max_mult target h n pos low high =
    let q = (target + h / 2) / h in
    let k = magnification max_mult target h in
    let under : h * q ≤ target + h / 2 = mul-div-le (target + h / 2) h in
    let over : target + h / 2 < h * (q + 1) = lt-mul-div-succ (target + h / 2) pos in
    elim (Bool-cases (leb k n)) [
      | inr below ↦
          let l : suc n ≤ k = ground (arith, below) in
          let small : k ≤ q = omega (arith, l, low) in
          let bound : h * k ≤ h * q = mul-le-mul_left h small in
          nearer_below target h k n (step_of h n k l) (omega (arith, bound, under))
      | inl above ↦ elim (Bool-cases (leb n k)) [
        | inl same ↦
            let e : k ≡ n = ground (arith, above, same) in
            subst (λ x. abs_diff (h * k) target ≤ abs_diff (h * x) target) e (omega arith)
        | inr more ↦
            let l : suc k ≤ n = ground (arith, more) in
            let large : q + 1 ≤ suc k = omega (arith, l, high) in
            let bound : h * (q + 1) ≤ h * suc k = mul-le-mul_left h large in
            nearer_above target h k n (step_of h k n l) (omega (arith, over, bound, mul-suc h k))
      ]
    ]
