-- ===== src/Status/Order.antt =====
-- Sorted lists of conditions, by the derived order of `PrinterCondition` in
-- print-core/src/model/printer.rs, and `dedup` of sorted ones.
use kiln_print.Prelude.{
  ℕ, ◌≡◌, ◌≤◌, ◌<◌, refl, sym, ap, ◌∙◌, Bool, true, false, ◌||◌, List, [], ◌∷◌, inl, inr, arith,
  any, leb, ◌==◌, ==_iff, leb→le, if◌then◌else◌, All, Bool-cases, unwrap_or, get_elem?,
}
use kiln_print.Printer.{
  PrinterCondition, paused, error, offline, not_available, pending_deletion, paper_out, paper_jam,
  paper_problem, manual_feed, door_open, output_bin_full, toner_low, no_toner, out_of_memory,
  user_intervention, busy, warming_up, power_save, paper_low, head_open, ribbon_out,
}

-- The position in the declaration, by which the derived order compares.
abbrev pub rank : PrinterCondition → ℕ
rank paused = 0
rank error = 1
rank offline = 2
rank not_available = 3
rank pending_deletion = 4
rank paper_out = 5
rank paper_jam = 6
rank paper_problem = 7
rank manual_feed = 8
rank door_open = 9
rank output_bin_full = 10
rank toner_low = 11
rank no_toner = 12
rank out_of_memory = 13
rank user_intervention = 14
rank busy = 15
rank warming_up = 16
rank power_save = 17
rank paper_low = 18
rank head_open = 19
rank ribbon_out = 20

abbrev pub contains : PrinterCondition → List PrinterCondition → Bool
contains c cs = any (λ d. rank d == rank c) cs

unfoldable pub insert_condition : PrinterCondition → List PrinterCondition → List PrinterCondition
insert_condition c [] = c ∷ []
insert_condition c (d ∷ ds) =
    let rest = insert_condition c ds in if leb (rank c) (rank d) then c ∷ d ∷ ds else d ∷ rest

-- `sort_unstable`: equal conditions are the same.
unfoldable pub sort_conditions : List PrinterCondition → List PrinterCondition
unfolding insert_condition
sort_conditions [] = []
sort_conditions (c ∷ cs) = insert_condition c (sort_conditions cs)

abbrev pub cons_new : PrinterCondition → List PrinterCondition → List PrinterCondition
cons_new c [] = c ∷ []
cons_new c (d ∷ ds) = if rank c == rank d then d ∷ ds else c ∷ d ∷ ds

unfoldable pub dedup : List PrinterCondition → List PrinterCondition
dedup [] = []
dedup (c ∷ cs) = cons_new c (dedup cs)

abbrev pub IsSorted : List PrinterCondition → Type 0
IsSorted [] = Unit {0}
IsSorted (c ∷ cs) = All (λ d. rank c ≤ rank d) cs × IsSorted cs

-- In order, and each once.
abbrev pub IsStrict : List PrinterCondition → Type 0
IsStrict [] = Unit {0}
IsStrict (c ∷ cs) = All (λ d. rank c < rank d) cs × IsStrict cs

All-above :
    (m n : ℕ) (cs : List PrinterCondition)
    → m ≤ n
    → All (λ d. n ≤ rank d) cs
    → All (λ d. m ≤ rank d) cs
All-above m n [] h a = tt
All-above m n (c ∷ cs) h a = (omega (arith, h, a.0), All-above m n cs h a.1)

All-insert :
    (n : ℕ) (c : PrinterCondition) (ds : List PrinterCondition)
    → n ≤ rank c
    → All (λ d. n ≤ rank d) ds
    → All (λ d. n ≤ rank d) (insert_condition c ds)
unfolding insert_condition
All-insert n c [] h a = (h, tt)
All-insert n c (d ∷ ds) h a = elim (Bool-cases (leb (rank c) (rank d))) [
  | inl t ↦ rw (t, insert_condition) (h, a)
  | inr f ↦ rw (f, insert_condition) (a.0, All-insert n c ds h a.1)
]

insert_condition-IsSorted :
    (c : PrinterCondition) (ds : List PrinterCondition)
    → IsSorted ds
    → IsSorted (insert_condition c ds)
unfolding insert_condition
insert_condition-IsSorted c [] h = (tt, tt)
insert_condition-IsSorted c (d ∷ ds) h = elim (Bool-cases (leb (rank c) (rank d))) [
  | inl t ↦
      let le = leb→le (rank c) (rank d) t in
      rw (t, insert_condition) ((le, All-above (rank c) (rank d) ds le h.0), h)
  | inr f ↦
      let le : rank d ≤ rank c = ground (arith, f) in
      rw (f, insert_condition) (All-insert (rank d) c ds le h.0, insert_condition-IsSorted c ds h.1)
]

pub sort_conditions-IsSorted : (cs : List PrinterCondition) → IsSorted (sort_conditions cs)
unfolding sort_conditions
sort_conditions-IsSorted [] = tt
sort_conditions-IsSorted (c ∷ cs) =
    insert_condition-IsSorted c (sort_conditions cs) (sort_conditions-IsSorted cs)

-- A test finds in the sorted list what it finds in the list.
module _ (p : PrinterCondition → Bool) where
  or_swap : (a b c : Bool) → (b || (a || c)) ≡ (a || (b || c))
  or_swap true true c = refl
  or_swap true false c = refl
  or_swap false true c = refl
  or_swap false false c = refl

  any-insert :
      (c : PrinterCondition) (ds : List PrinterCondition)
      → any p (insert_condition c ds) ≡ (p c || any p ds)
  unfolding insert_condition
  any-insert c [] = refl
  any-insert c (d ∷ ds) = elim (Bool-cases (leb (rank c) (rank d))) [
    | inl t ↦ rw (t, insert_condition) refl
    | inr f ↦
        rw (f, insert_condition)
          (ap (λ r. p d || r) (any-insert c ds) ∙ or_swap (p c) (p d) (any p ds))
  ]

  pub any-sort : (cs : List PrinterCondition) → any p (sort_conditions cs) ≡ any p cs
  unfolding sort_conditions
  any-sort [] = refl
  any-sort (c ∷ cs) = any-insert c (sort_conditions cs) ∙ ap (λ r. p c || r) (any-sort cs)

abbrev in_order : List PrinterCondition
in_order =
    paused ∷ error ∷ offline ∷ not_available ∷ pending_deletion ∷ paper_out ∷ paper_jam
    ∷ paper_problem ∷ manual_feed ∷ door_open ∷ output_bin_full ∷ toner_low ∷ no_toner
    ∷ out_of_memory ∷ user_intervention ∷ busy ∷ warming_up ∷ power_save ∷ paper_low ∷ head_open
    ∷ ribbon_out ∷ []

abbrev of_rank : ℕ → PrinterCondition
of_rank n = unwrap_or (get_elem? in_order n) ribbon_out

of_rank-rank : (c : PrinterCondition) → of_rank (rank c) ≡ c
of_rank-rank paused = refl
of_rank-rank error = refl
of_rank-rank offline = refl
of_rank-rank not_available = refl
of_rank-rank pending_deletion = refl
of_rank-rank paper_out = refl
of_rank-rank paper_jam = refl
of_rank-rank paper_problem = refl
of_rank-rank manual_feed = refl
of_rank-rank door_open = refl
of_rank-rank output_bin_full = refl
of_rank-rank toner_low = refl
of_rank-rank no_toner = refl
of_rank-rank out_of_memory = refl
of_rank-rank user_intervention = refl
of_rank-rank busy = refl
of_rank-rank warming_up = refl
of_rank-rank power_save = refl
of_rank-rank paper_low = refl
of_rank-rank head_open = refl
of_rank-rank ribbon_out = refl

rank-injective : (c d : PrinterCondition) → rank c ≡ rank d → c ≡ d
rank-injective c d h = sym (of_rank-rank c) ∙ ap of_rank h ∙ of_rank-rank d

or_same : (a b : Bool) → (a || b) ≡ (a || (a || b))
or_same true b = refl
or_same false b = refl

any-cons_new :
    (p : PrinterCondition → Bool) (c : PrinterCondition) (ds : List PrinterCondition)
    → any p (cons_new c ds) ≡ (p c || any p ds)
any-cons_new p c [] = refl
any-cons_new p c (d ∷ ds) = elim (Bool-cases (rank c == rank d)) [
  | inr f ↦ rw (f, cons_new) refl
  | inl t ↦
      let same : c ≡ d = rank-injective c d ((==_iff (rank c) (rank d)).0 t) in
      rw (t, cons_new) (or_same (p d) (any p ds) ∙ ap (λ r. p r || (p d || any p ds)) (sym same))
]

pub any-dedup :
    (p : PrinterCondition → Bool) (cs : List PrinterCondition) → any p (dedup cs) ≡ any p cs
unfolding dedup
any-dedup p [] = refl
any-dedup p (c ∷ cs) = any-cons_new p c (dedup cs) ∙ ap (λ r. p c || r) (any-dedup p cs)

All-dedup :
    (n : ℕ) (cs : List PrinterCondition)
    → All (λ d. n ≤ rank d) cs
    → All (λ d. n ≤ rank d) (dedup cs)
unfolding dedup
All-dedup n [] h = tt
All-dedup n (c ∷ cs) h = All-cons_new (dedup cs) (All-dedup n cs h.1)
  where
    All-cons_new :
        (ds : List PrinterCondition)
        → All (λ d. n ≤ rank d) ds
        → All (λ d. n ≤ rank d) (cons_new c ds)
    All-cons_new [] k = (h.0, tt)
    All-cons_new (d ∷ ds) k = elim (Bool-cases (rank c == rank d)) [
      | inl t ↦ rw (t, cons_new) k
      | inr f ↦ rw (f, cons_new) (h.0, k)
    ]

All-strict :
    (m n : ℕ) (cs : List PrinterCondition)
    → m < n
    → All (λ d. n < rank d) cs
    → All (λ d. m < rank d) cs
All-strict m n [] h a = tt
All-strict m n (c ∷ cs) h a = (omega (arith, h, a.0), All-strict m n cs h a.1)

cons_new-IsStrict :
    (c : PrinterCondition) (ds : List PrinterCondition)
    → All (λ d. rank c ≤ rank d) ds
    → IsStrict ds
    → IsStrict (cons_new c ds)
cons_new-IsStrict c [] h k = (tt, tt)
cons_new-IsStrict c (d ∷ ds) h k = elim (Bool-cases (rank c == rank d)) [
  | inl t ↦ rw (t, cons_new) k
  | inr f ↦
      let below : rank c < rank d = ground (arith, f, h.0) in
      rw (f, cons_new) ((below, All-strict (rank c) (rank d) ds below k.0), k)
]

pub dedup-IsStrict : (cs : List PrinterCondition) → IsSorted cs → IsStrict (dedup cs)
unfolding dedup
dedup-IsStrict [] h = tt
dedup-IsStrict (c ∷ cs) h =
    cons_new-IsStrict c (dedup cs) (All-dedup (rank c) cs h.0) (dedup-IsStrict cs h.1)
