-- ===== src/Budget/Interleaving.antt =====
-- Any number of threads that reserve from the budget of print-core/src/queue.rs and drop their
-- reservations: each atomic operation is a step.
use native.Mathlib.Decide.{dec_le}
use kiln_print.Prelude.{
  ℕ, ◌+◌, ◌≤◌, ◌<◌, ◌≡◌, refl, sym, ap, subst, ◌∙◌, Bool, true, false, Option, none, some, List, [],
  ◌∷◌, ◌++◌, arith, ◌⊎◌, inl, inr,
}
use kiln_print.Budget.{ByteBudget, u64_mod, next_used, exchange, try_reserve, release}

unfoldable pub sum : List ℕ → ℕ
sum [] = 0
sum (x ∷ xs) = x + sum xs

sum-middle : (xs : List ℕ) (x : ℕ) (ys : List ℕ) → sum (xs ++ x ∷ ys) ≡ x + sum (xs ++ ys)
unfolding sum
sum-middle [] x ys = refl
sum-middle (y ∷ xs) x ys = omega (arith, sum-middle xs x ys)

-- A thread inside the loop of `try_reserve`: what it wants, and the value that it read last.
pub record Thread : Type 0 where
  pub bytes : ℕ
  pub current : ℕ

pub record World : Type 0 where
  pub budget : ByteBudget
  pub held : List ℕ
  pub trying : List Thread

-- Where `exchange` leaves the thread `t`: it holds its reservation, or goes round with the value
-- that it read.
abbrev pub exchanged : World → List Thread → Thread → List Thread → ℕ × Option ℕ → World
exchanged w xs t ys (used, none) = record w {
  budget = record w.budget { used = used };
  held = t.bytes ∷ w.held;
  trying = xs ++ ys;
}
exchanged w xs t ys (used, some actual) = record w {
  budget = record w.budget { used = used };
  trying = xs ++ record t { current = actual } ∷ ys;
}

pub data Step (w w' : World) : Type 0 where
  begins :
      (bytes : ℕ)
      → w' ≡ record w { trying = record { bytes = bytes; current = w.budget.used } ∷ w.trying }
      → Step w w'
  exchanges :
      (spurious : Bool) (n : ℕ) (xs : List Thread) (t : Thread) (ys : List Thread)
      → w.trying ≡ xs ++ t ∷ ys
      → next_used w.budget.limit t.bytes t.current ≡ some n
      → w' ≡ exchanged w xs t ys (exchange spurious t.current n w.budget.used)
      → Step w w'
  gives_up :
      (xs : List Thread) (t : Thread) (ys : List Thread)
      → w.trying ≡ xs ++ t ∷ ys
      → next_used w.budget.limit t.bytes t.current ≡ none
      → w' ≡ record w { trying = xs ++ ys }
      → Step w w'
  drops :
      (xs : List ℕ) (bytes : ℕ) (ys : List ℕ)
      → w.held ≡ xs ++ bytes ∷ ys
      → w' ≡ record w {
        budget = record w.budget { used = release w.budget.used bytes };
        held = xs ++ ys;
      }
      → Step w w'

pub data Reach (w : World) : World → Type 0 where
  here : Reach w w
  next : {u v : World} → Reach w u → Step u v → Reach w v

-- What is used is what is reserved, and no more than the limit.
pub record IsBalanced (w : World) : Type 0 where
  pub exact : w.budget.used ≡ sum w.held
  pub within : w.budget.used ≤ w.budget.limit
  pub word : w.budget.limit < u64_mod

next_used_lem :
    (limit bytes current n : ℕ)
    → next_used limit bytes current ≡ some n
    → (n ≡ current + bytes) × (n ≤ limit)
unfolding next_used
next_used_lem limit bytes current n h = ground arith

exchanged-IsBalanced :
    (w : World) (spurious : Bool) (n : ℕ) (xs : List Thread) (t : Thread) (ys : List Thread)
    → next_used w.budget.limit t.bytes t.current ≡ some n
    → IsBalanced w
    → IsBalanced (exchanged w xs t ys (exchange spurious t.current n w.budget.used))
unfolding exchange sum
exchanged-IsBalanced w true n xs t ys h v = record {
  exact = v.exact;
  within = v.within;
  word = v.word;
}
exchanged-IsBalanced w false n xs t ys h v =
    ground (arith, next_used_lem w.budget.limit t.bytes t.current n h)

drops-IsBalanced :
    (w : World) (xs : List ℕ) (bytes : ℕ) (ys : List ℕ)
    → w.held ≡ xs ++ bytes ∷ ys
    → IsBalanced w
    → IsBalanced (record w {
      budget = record w.budget { used = release w.budget.used bytes };
      held = xs ++ ys;
    })
unfolding release
drops-IsBalanced w xs bytes ys h v =
    let total = v.exact ∙ ap sum h ∙ sum-middle xs bytes ys in
    record {
      exact = omega (arith, total, v.within, v.word);
      within = omega (arith, total, v.within, v.word);
      word = v.word;
    }

step-IsBalanced : {w w' : World} → IsBalanced w → Step w w' → IsBalanced w'
step-IsBalanced {w} {w'} v (begins bytes e) =
    subst IsBalanced (sym e) (record { exact = v.exact; within = v.within; word = v.word })
step-IsBalanced {w} {w'} v (exchanges spurious n xs t ys at h e) =
    subst IsBalanced (sym e) (exchanged-IsBalanced w spurious n xs t ys h v)
step-IsBalanced {w} {w'} v (gives_up xs t ys at h e) =
    subst IsBalanced (sym e) (record { exact = v.exact; within = v.within; word = v.word })
step-IsBalanced {w} {w'} v (drops xs bytes ys at e) =
    subst IsBalanced (sym e) (drops-IsBalanced w xs bytes ys at v)

-- In every state that threads can reach, the bytes in use are those reserved, within the limit.
pub Reach-IsBalanced : {w w' : World} → IsBalanced w → Reach w w' → IsBalanced w'
Reach-IsBalanced v here = v
Reach-IsBalanced v (next r st) = step-IsBalanced (Reach-IsBalanced v r) st

-- With no other thread at work a reservation succeeds exactly if it fits within the limit, takes
-- exactly its bytes, and gives them back when it is released; a refused one changes nothing. The
-- limit is below 2^64.
pub try_reserve_exact :
    (b : ByteBudget) (bytes : ℕ)
    → b.limit < u64_mod
    → (((try_reserve b bytes).1 ≡ true)
        × (b.used + bytes ≤ b.limit)
        × ((try_reserve b bytes).0.used ≡ b.used + bytes)
        × (release (try_reserve b bytes).0.used bytes ≡ b.used))
      ⊎ (((try_reserve b bytes).1 ≡ false)
          × (b.limit < b.used + bytes)
          × ((try_reserve b bytes).0 ≡ b))
unfolding try_reserve release
try_reserve_exact b bytes word = elim (dec_le (b.used + bytes) b.limit) [
  | yes fits ↦ inl (ground arith, fits, ground arith, ground arith)
  | no over ↦ inr (ground arith, omega arith, ground arith)
]
