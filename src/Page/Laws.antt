-- ===== src/Page/Laws.antt =====
-- Which pages a parsed range selects (print-core/src/model/page.rs).
use kiln_print.Prelude.{
  ℕ, zero, suc, ◌+◌, ◌-◌, ◌≤◌, ◌<◌, min, ◌≡◌, ◌≢◌, ◌↔◌, ◌⊎◌, refl, inl, inr, subst, String, false,
  not, ◌||◌, Option, none, some, List, [], ◌∷◌, ◌++◌, Memᴰ, All, arith, keep, map, ◌==◌, str_eq,
  split, Bool-cases, Option-cases, ℕ_discrete,
}
use kiln_print.Error.{ok}
use kiln_print.Page.{
  PageRange, PageRanges, trimmed, is_before, parse_bounds, valid_range, and_then, parse_parts,
  non_empty, comma, parse, pages_from, range_indices, indices,
}

-- A range that selects a page of a long enough document.
abbrev pub IsRange : PageRange → Type 0
IsRange (start, none) = 1 ≤ start
IsRange (start, some end) = (1 ≤ start) × (start ≤ end)

-- The range holds the page with this index.
abbrev pub Holds : ℕ → PageRange → Type 0
Holds n (start, none) = start ≤ n + 1
Holds n (start, some end) = (start ≤ n + 1) × (n + 1 ≤ end)

valid_range-IsRange : (q r : PageRange) → valid_range q ≡ some r → IsRange r
unfolding valid_range
valid_range-IsRange (start, end) r h = elim (Bool-cases ((start == 0) || is_before end start)) [
  | inl t ↦ absurd (ground (arith, t, h))
  | inr f ↦
      let same : (start, end) ≡ r = ground (arith, f, h) in
      subst IsRange same (valid_bounds start end f)
]
  where
    valid_bounds :
        (start : ℕ) (end : Option ℕ)
        → ((start == 0) || is_before end start) ≡ false
        → IsRange (start, end)
    valid_bounds start none f = ground (arith, f)
    valid_bounds start (some e) f = (ground (arith, f), ground (arith, f))

parse_parts-All :
    (parts : List String) (rs : PageRanges) → parse_parts parts ≡ some rs → All IsRange rs
unfolding parse_parts
parse_parts-All [] rs h = let same : [] ≡ rs = ground (arith, h) in subst (All IsRange) same tt
parse_parts-All (part ∷ parts) rs h =
    elim (Option-cases (and_then (parse_bounds part) valid_range)) [
      | inl n ↦ absurd (ground (arith, n, h))
      | inr (r, e) ↦ elim (Option-cases (parse_parts parts)) [
        | inl n ↦ absurd (ground (arith, e, n, h))
        | inr (rest, f) ↦
            let same : r ∷ rest ≡ rs = ground (arith, e, f, h) in
            subst (All IsRange) same (valid r e, parse_parts-All parts rest f)
      ]
    ]
  where
    valid : (r : PageRange) → and_then (parse_bounds part) valid_range ≡ some r → IsRange r
    valid r e = elim (Option-cases (parse_bounds part)) [
      | inl n ↦ absurd (ground (arith, n, e))
      | inr (q, g) ↦ valid_range-IsRange q r (ground (arith, g, e))
    ]

non_empty-same :
    (o : Option PageRanges) (rs : PageRanges) → non_empty o ≡ some rs → (o ≡ some rs) × (rs ≢ [])
non_empty-same none rs h = absurd (ground (arith, h))
non_empty-same (some []) rs h = absurd (ground (arith, h))
non_empty-same (some (r ∷ tail)) rs h =
    let same : r ∷ tail ≡ rs = ground (arith, h) in
    (h, subst (λ x. x ≢ []) same (λ e. absurd (ground (arith, e))))

parse-All : (spec : String) (rs : PageRanges) → parse spec ≡ ok rs → (rs ≢ []) × All IsRange rs
unfolding parse
parse-All spec rs h =
    let parts = keep (λ p. not (str_eq p "")) (map trimmed (split comma spec)) in
    elim (Option-cases (non_empty (parse_parts parts))) [
      | inl n ↦ absurd (ground (arith, n, h))
      | inr (found, f) ↦
          let (parsed, some_left) = non_empty-same (parse_parts parts) found f in
          let same : found ≡ rs = ground (arith, f, h) in
          subst (λ x. (x ≢ []) × All IsRange x) same (some_left, parse_parts-All parts found parsed)
    ]

Mem-append-left : (n : ℕ) (xs ys : List ℕ) → Memᴰ n xs → Memᴰ n (xs ++ ys)
Mem-append-left n [] ys m = absurd (elim m [ ])
Mem-append-left n (x ∷ xs) ys (Memᴰ.head e) = Memᴰ.head e
Mem-append-left n (x ∷ xs) ys (Memᴰ.tail m) = Memᴰ.tail (Mem-append-left n xs ys m)

Mem-append-right : (n : ℕ) (xs ys : List ℕ) → Memᴰ n ys → Memᴰ n (xs ++ ys)
Mem-append-right n [] ys m = m
Mem-append-right n (x ∷ xs) ys m = Memᴰ.tail (Mem-append-right n xs ys m)

Mem-append-cases : (n : ℕ) (xs ys : List ℕ) → Memᴰ n (xs ++ ys) → Memᴰ n xs ⊎ Memᴰ n ys
Mem-append-cases n [] ys m = inr m
Mem-append-cases n (x ∷ xs) ys (Memᴰ.head e) = inl (Memᴰ.head e)
Mem-append-cases n (x ∷ xs) ys (Memᴰ.tail m) = elim (Mem-append-cases n xs ys m) [
  | inl l ↦ inl (Memᴰ.tail l)
  | inr r ↦ inr r
]

pages_from-bounds :
    (n page count : ℕ)
    → 1 ≤ page
    → Memᴰ n (pages_from page count)
    → (page ≤ n + 1) × (n + 1 < page + count)
unfolding pages_from
pages_from-bounds n page zero h m = absurd (elim m [ ])
pages_from-bounds n page (suc count) h (Memᴰ.head e) = (omega (arith, h, e), omega (arith, h, e))
pages_from-bounds n page (suc count) h (Memᴰ.tail m) =
    let (low, high) = pages_from-bounds n (page + 1) count (omega (arith, h)) m in
    (omega (arith, low), omega (arith, high))

pages_from-Mem :
    (n page count : ℕ)
    → 1 ≤ page
    → page ≤ n + 1
    → n + 1 < page + count
    → Memᴰ n (pages_from page count)
unfolding pages_from
pages_from-Mem n page zero h low high = absurd (omega (arith, low, high))
pages_from-Mem n page (suc count) h low high = elim (ℕ_discrete page (n + 1)) [
  | yes e ↦ Memᴰ.head (omega (arith, e))
  | no ne ↦ Memᴰ.tail (
      pages_from-Mem n (page + 1) count (omega arith) (omega (arith, low, ne))
        (omega (arith, high)))
]

range_indices_iff :
    (n page_count : ℕ) (r : PageRange)
    → IsRange r
    → Memᴰ n (range_indices page_count r) ↔ ((n < page_count) × Holds n r)
unfolding range_indices
range_indices_iff n c (start, none) h = (
  λ m.
      let (low, high) = pages_from-bounds n start (min c c + 1 - start) h m in
      (omega (arith, low, high), low),
  λ k. pages_from-Mem n start (min c c + 1 - start) h k.1 (omega (arith, k.0, k.1)),
)
range_indices_iff n c (start, some e) h = (
  λ m.
      let (low, high) = pages_from-bounds n start (min e c + 1 - start) h.0 m in
      (omega (arith, low, high), (low, omega (arith, low, high))),
  λ k. pages_from-Mem n start (min e c + 1 - start) h.0 k.1.0 (omega (arith, k.0, k.1.0, k.1.1)),
)

-- Some range of the list holds the page.
abbrev pub HeldBy : ℕ → PageRanges → Type 0
HeldBy n rs = (r : PageRange) × Memᴰ r rs × Holds n r

indices_iff :
    (n page_count : ℕ) (rs : PageRanges)
    → All IsRange rs
    → Memᴰ n (indices rs page_count) ↔ ((n < page_count) × HeldBy n rs)
unfolding indices
indices_iff n c [] h = (λ m. absurd (elim m [ ]), λ k. absurd (elim k.1.1 [ ]))
indices_iff n c (r ∷ rs) h =
    let first = range_indices_iff n c r h.0 in
    let later = indices_iff n c rs h.1 in
    (
      λ m. elim (Mem-append-cases n (range_indices c r) (indices rs c) m) [
        | inl l ↦ let (small, holds) = first.0 l in (small, (r, Memᴰ.head refl, holds))
        | inr t ↦ let (small, (q, q_in, holds)) = later.0 t in (small, (q, Memᴰ.tail q_in, holds))
      ],
      selected later.1,
    )
  where
    selected :
        ((n < c) × HeldBy n rs → Memᴰ n (indices rs c))
        → (n < c) × HeldBy n (r ∷ rs)
        → Memᴰ n (range_indices c r ++ indices rs c)
    selected other (small, (q, Memᴰ.head e, holds)) =
        Mem-append-left n (range_indices c r) (indices rs c)
          ((range_indices_iff n c r h.0).1 (small, subst (Holds n) e holds))
    selected other (small, (q, Memᴰ.tail m, holds)) =
        Mem-append-right n (range_indices c r) (indices rs c) (other (small, (q, m, holds)))

-- Ranges that are parsed are one or more, each from page 1 on and not backwards; the pages that they
-- select of a document are exactly its pages that lie in one of them.
pub parse-indices :
    (spec : String) (rs : PageRanges)
    → parse spec ≡ ok rs
    → (rs ≢ [])
      × All IsRange rs
      × ((n page_count : ℕ) → Memᴰ n (indices rs page_count) ↔ ((n < page_count) × HeldBy n rs))
parse-indices spec rs h =
    let (some_left, valid) = parse-All spec rs h in
    (some_left, valid, λ n page_count. indices_iff n page_count rs valid)
