-- ===== src/Repository/Listing.antt =====
-- What `InMemoryJobRepository` of print-core/src/repository.rs lists, and what it purges.
use kiln_print.Prelude.{
  ℕ, zero, suc, ◌≤◌, ◌≡◌, Bool, true, false, not, inl, inr, some, List, [], ◌∷◌, arith, length,
  take, drop, keep, All, All-take, All-drop, All-keep, length-take_le, Map, lookup, values,
  Bool-cases, leb,
}
use kiln_print.Job.{Job}
use kiln_print.Repository.{
  JobFilter, effective_limit, matches, insert_newest, sort_newest, list_memory, is_expired, retain,
  purge_memory,
}

All-insert :
    (Q : Job → Type 0) (j : Job) (ks : List Job) → Q j → All Q ks → All Q (insert_newest j ks)
unfolding insert_newest
All-insert Q j [] q h = (q, tt)
All-insert Q j (k ∷ ks) q h = elim (Bool-cases (leb k.created_at j.created_at)) [
  | inl t ↦ rw (t, insert_newest) (q, h)
  | inr f ↦ rw (f, insert_newest) (h.0, All-insert Q j ks q h.1)
]

pub All-sort : (Q : Job → Type 0) (js : List Job) → All Q js → All Q (sort_newest js)
unfolding sort_newest
All-sort Q [] h = tt
All-sort Q (j ∷ js) h = All-insert Q j (sort_newest js) h.0 (All-sort Q js h.1)

-- Newest first.
abbrev pub IsNewestFirst : List Job → Type 0
IsNewestFirst [] = Unit {0}
IsNewestFirst (j ∷ js) = All (λ k. k.created_at ≤ j.created_at) js × IsNewestFirst js

All-older :
    (t u : ℕ) (js : List Job)
    → t ≤ u
    → All (λ k. k.created_at ≤ t) js
    → All (λ k. k.created_at ≤ u) js
All-older t u [] h a = tt
All-older t u (j ∷ js) h a = (omega (arith, h, a.0), All-older t u js h a.1)

insert-IsNewestFirst :
    (j : Job) (ks : List Job) → IsNewestFirst ks → IsNewestFirst (insert_newest j ks)
unfolding insert_newest
insert-IsNewestFirst j [] h = (tt, tt)
insert-IsNewestFirst j (k ∷ ks) h = elim (Bool-cases (leb k.created_at j.created_at)) [
  | inl t ↦
      let le : k.created_at ≤ j.created_at = ground arith in
      rw (t, insert_newest) ((le, All-older k.created_at j.created_at ks le h.0), h)
  | inr f ↦
      rw (f, insert_newest)
        (
          All-insert (λ i. i.created_at ≤ k.created_at) j ks (ground arith) h.0,
          insert-IsNewestFirst j ks h.1,
        )
]

sort-IsNewestFirst : (js : List Job) → IsNewestFirst (sort_newest js)
unfolding sort_newest
sort-IsNewestFirst [] = tt
sort-IsNewestFirst (j ∷ js) = insert-IsNewestFirst j (sort_newest js) (sort-IsNewestFirst js)

take-IsNewestFirst : (n : ℕ) (js : List Job) → IsNewestFirst js → IsNewestFirst (take n js)
take-IsNewestFirst zero js h = tt
take-IsNewestFirst (suc n) [] h = tt
take-IsNewestFirst (suc n) (j ∷ js) h =
    (All-take (λ k. k.created_at ≤ j.created_at) n js h.0, take-IsNewestFirst n js h.1)

drop-IsNewestFirst : (n : ℕ) (js : List Job) → IsNewestFirst js → IsNewestFirst (drop n js)
drop-IsNewestFirst zero js h = h
drop-IsNewestFirst (suc n) [] h = tt
drop-IsNewestFirst (suc n) (j ∷ js) h = drop-IsNewestFirst n js h.1

effective_limit-le : (f : JobFilter) → effective_limit f ≤ 500
unfolding effective_limit
effective_limit-le f = ground arith

-- A listing has at most 500 jobs, each of them matches the filter, and they stand newest first.
pub list_memory_lem :
    (m : Map Job) (f : JobFilter)
    → (length (list_memory m f) ≤ 500)
      × All (λ j. matches f j ≡ true) (list_memory m f)
      × IsNewestFirst (list_memory m f)
unfolding list_memory
list_memory_lem m f =
    let found = keep (matches f) (values m) in
    let sorted = sort_newest found in
    let rest = drop f.offset sorted in
    let Q : Job → Type 0 = λ j. matches f j ≡ true in
    (
      omega (arith, length-take_le (effective_limit f) rest, effective_limit-le f),
      All-take Q (effective_limit f) rest
          (All-drop Q f.offset sorted (All-sort Q found (All-keep (matches f) (values m)))),
      take-IsNewestFirst (effective_limit f) rest
          (drop-IsNewestFirst f.offset sorted (sort-IsNewestFirst found)),
    )

retain-keeps :
    (p : Job → Bool) (m : Map Job) (id : ℕ) (j : Job)
    → lookup id m ≡ some j
    → p j ≡ true
    → lookup id (retain p m) ≡ some j
unfolding retain lookup
retain-keeps p [] id j h q = h
retain-keeps p ((k, i) ∷ m) id j h q = ground (arith, retain-keeps p m id j)

retain-All : (p : Job → Bool) (m : Map Job) → All (λ j. p j ≡ true) (values (retain p m))
unfolding retain
retain-All p [] = tt
retain-All p ((k, i) ∷ m) = elim (Bool-cases (p i)) [
  | inl t ↦ rw (t, retain) (t, retain-All p m)
  | inr f ↦ rw (f, retain) (retain-All p m)
]

-- A purge removes every terminal job from before the cutoff, and no other job.
pub purge_memory_lem :
    (m : Map Job) (cutoff : ℕ)
    → All (λ j. not (is_expired cutoff j) ≡ true) (values (purge_memory m cutoff).0)
      × ((id : ℕ) (j : Job)
          → lookup id m ≡ some j
          → is_expired cutoff j ≡ false
          → lookup id (purge_memory m cutoff).0 ≡ some j)
unfolding purge_memory
purge_memory_lem m cutoff = (
  retain-All (λ j. not (is_expired cutoff j)) m,
  λ id j h q. retain-keeps (λ j. not (is_expired cutoff j)) m id j h (ground (arith, q)),
)
