-- ===== src/Prelude/Decimal.antt =====
-- Decimal numerals, as Rust's `Display` writes an unsigned integer, and texts put together.
use Prim.Native.Nat.{ℕ, zero, suc, ◌+◌, ◌-◌, ◌*◌, ◌/◌, ◌%◌, ◌<◌}
use Prim.Native.Char.{code}
use Prim.Native.String.{String}
use mathlib.Core.Path.{◌≡◌, refl, ap, ◌∙◌}
use mathlib.Core.Logic.{inl, inr}
use mathlib.Core.List.{List, [], ◌∷◌}
use native.Mathlib.Omega.{arith}
use kiln_print.Prelude.Tests.{if◌then◌else◌, ltb, ltb→lt, Bool-cases}
use kiln_print.Prelude.Texts.{append}

unfoldable pub concat : List String → String
unfolding append
concat [] = String.[]
concat (s ∷ ss) = append s (concat ss)

abbrev pub digit : ℕ → String
digit zero = "0"
digit (suc zero) = "1"
digit (suc (suc zero)) = "2"
digit (suc (suc (suc zero))) = "3"
digit (suc (suc (suc (suc zero)))) = "4"
digit (suc (suc (suc (suc (suc zero))))) = "5"
digit (suc (suc (suc (suc (suc (suc zero)))))) = "6"
digit (suc (suc (suc (suc (suc (suc (suc zero))))))) = "7"
digit (suc (suc (suc (suc (suc (suc (suc (suc zero)))))))) = "8"
digit _ = "9"

-- One digit a round, so as much fuel as the number and one more is enough.
unfoldable pub show_before : ℕ → ℕ → String → String
unfolding append
show_before zero n after = after
show_before (suc fuel) n after =
    let s = append (digit (n % 10)) after in
    let more = show_before fuel (n / 10) s in if ltb n 10 then s else more

unfoldable pub show : ℕ → String
unfolding show_before
show n = show_before (suc n) n String.[]

-- The number that a text of digits stands for.
pub digits_value : ℕ → String → ℕ
digits_value n String.[] = n
digits_value n (String.◌∷◌ c s) = digits_value (n * 10 + (code c - 48)) s

digits_value-digit :
    (n d : ℕ) (s : String)
    → d < 10
    → digits_value n (append (digit d) s) ≡ digits_value (n * 10 + d) s
unfolding digits_value append
digits_value-digit n zero s h = refl
digits_value-digit n (suc zero) s h = refl
digits_value-digit n (suc (suc zero)) s h = refl
digits_value-digit n (suc (suc (suc zero))) s h = refl
digits_value-digit n (suc (suc (suc (suc zero)))) s h = refl
digits_value-digit n (suc (suc (suc (suc (suc zero))))) s h = refl
digits_value-digit n (suc (suc (suc (suc (suc (suc zero)))))) s h = refl
digits_value-digit n (suc (suc (suc (suc (suc (suc (suc zero))))))) s h = refl
digits_value-digit n (suc (suc (suc (suc (suc (suc (suc (suc zero)))))))) s h = refl
digits_value-digit n (suc (suc (suc (suc (suc (suc (suc (suc (suc zero))))))))) s h = refl
digits_value-digit n (suc (suc (suc (suc (suc (suc (suc (suc (suc (suc d)))))))))) s h =
    absurd (omega (arith, h))

digits_value-show_before :
    (fuel n : ℕ) (after : String)
    → n < fuel
    → digits_value 0 (show_before fuel n after) ≡ digits_value n after
unfolding show_before
digits_value-show_before zero n after h = absurd (omega (arith, h))
digits_value-show_before (suc fuel) n after h = elim (Bool-cases (ltb n 10)) [
  | inl t ↦
      let small : n % 10 ≡ n = omega (arith, ltb→lt n 10 t) in
      rw (t, show_before)
        (digits_value-digit 0 (n % 10) after (omega arith)
          ∙ ap (λ (m : ℕ). digits_value m after) (omega (arith, small)))
  | inr f ↦
      rw (f, show_before)
        (digits_value-show_before fuel (n / 10) (append (digit (n % 10)) after)
            (ground (arith, h, f))
          ∙ digits_value-digit (n / 10) (n % 10) after (omega arith)
          ∙ ap (λ (m : ℕ). digits_value m after) (omega arith))
]

-- The fuel is enough: a numeral reads back as the number.
pub digits_value-show : (n : ℕ) → digits_value 0 (show n) ≡ n
unfolding show
digits_value-show n =
    digits_value-show_before (suc n) n String.[] (omega arith) ∙ (unfold digits_value in refl)
