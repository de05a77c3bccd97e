-- ===== src/Repository/Refinement.antt =====
-- What print-core/src/repository.rs reads and lists of its in-memory store, beside the same on an
-- abstract map.
use kiln_print.Prelude.{
  ◌≤◌, length, drop, All, All-take, All-drop, All-keep_of, ℕ, ◌≡◌, refl, sym, ap, ◌∙◌, ◌↔◌, ◌⊎◌,
  inl, inr, Bool, true, false, not, some, List, [], ◌∷◌, Memᴰ, arith, keep, values, Bool-cases,
}
use kiln_print.Error.{ok}
use kiln_print.Job.{Job, is_terminal}
use kiln_print.Repository.Listing.{IsNewestFirst, All-sort, list_memory_lem}
use kiln_print.Repository.{JobFilter, matches, list_memory, effective_limit, sort_newest, in_memory}
use kiln_print.Repository.Writes.{
  Write, Jobs, has_ended, has_ended_lem, all_written, write_all, values-lookup, lookup-values,
  write_all-IsKeyed, lookup-write_all,
}

Mem-cons : {i j : Job} {js : List Job} → Memᴰ j (i ∷ js) → (j ≡ i) ⊎ Memᴰ j js
Mem-cons (Memᴰ.head e) = inl e
Mem-cons (Memᴰ.tail l) = inr l

Mem-keep :
    (p : Job → Bool) (j : Job) (js : List Job) → Memᴰ j (keep p js) → Memᴰ j js × (p j ≡ true)
Mem-keep p j [] m = elim m [ ]
Mem-keep p j (i ∷ js) m = elim (Bool-cases (p i)) [
  | inl t ↦ elim (Mem-cons (rw (t, keep) at m)) [
    | inl e ↦ (Memᴰ.head e, ap p e ∙ t)
    | inr l ↦ let found = Mem-keep p j js l in (Memᴰ.tail found.0, found.1)
  ]
  | inr f ↦ let found = Mem-keep p j js (rw (f, keep) at m) in (Memᴰ.tail found.0, found.1)
]

keep-Mem : (p : Job → Bool) (j : Job) (js : List Job) → Memᴰ j js → p j ≡ true → Memᴰ j (keep p js)
keep-Mem p j [] l t = elim l [ ]
keep-Mem p j (i ∷ js) (Memᴰ.head e) t =
    let q : p i ≡ true = sym (ap p e) ∙ t in rw (q, keep) (Memᴰ.head e)
keep-Mem p j (i ∷ js) (Memᴰ.tail l) t =
    let rest = keep-Mem p j js l t in
    elim (Bool-cases (p i)) [ inl h ↦ rw (h, keep) (Memᴰ.tail rest) | inr f ↦ rw (f, keep) rest ]

-- The unfinished jobs of an abstract map.
abbrev pub IsPending : Jobs → Job → Type 0
IsPending jobs j = (jobs j.job_id ≡ some j) × (has_ended j.status ≡ false)

All-values : (Q : Job → Type 0) (js : List Job) → ((j : Job) → Memᴰ j js → Q j) → All Q js
All-values Q [] h = tt
All-values Q (j ∷ js) h = (h j (Memᴰ.head refl), All-values Q js (λ k l. h k (Memᴰ.tail l)))

-- What a listing may be of an abstract map: no more than 500 of its jobs, each under its id, that match
-- the filter, newest first.
abbrev pub IsListing : Jobs → JobFilter → List Job → Type 0
IsListing jobs f listed =
    All (λ (j : Job). jobs j.job_id ≡ some j) listed
    × All (λ (j : Job). matches f j ≡ true) listed
    × IsNewestFirst listed
    × (length listed ≤ 500)

list-IsListing :
    (ws : List Write) (f : JobFilter) → IsListing (all_written ws) f (list_memory (write_all ws) f)
unfolding list_memory
list-IsListing ws f =
    let m = write_all ws in
    let Q : Job → Type 0 = λ j. all_written ws j.job_id ≡ some j in
    let held : All Q (values m) =
      All-values Q (values m)
        (λ j l. sym (lookup-write_all ws j.job_id) ∙ values-lookup m j (write_all-IsKeyed ws) l) in
    let found = keep (matches f) (values m) in
    let (short, matching, newest) = list_memory_lem m f in
    (
      All-take Q (effective_limit f) (drop f.offset (sort_newest found)) (
          All-drop Q f.offset (sort_newest found)
            (All-sort Q found (All-keep_of Q (matches f) (values m) held))),
      matching,
      newest,
      short,
    )

-- After any inserts, updates and purges of an empty in-memory store, a read answers what the abstract
-- map has after the same writes, where a purge forgets the jobs that ended and are from before the
-- cutoff; the unfinished jobs that the store gives a restart are those of the map, each one of them;
-- and a listing has jobs of the map that match its filter, newest first and at most 500.
pub in_memory-refines :
    (ws : List Write)
    → ((k : ℕ) → in_memory.get (write_all ws) k ≡ ok (all_written ws k))
      × ((found : List Job) × (in_memory.non_terminal (write_all ws) ≡ ok found)
          × ((j : Job) → Memᴰ j found ↔ IsPending (all_written ws) j))
      × ((f : JobFilter)
          → (listed : List Job) × (in_memory.list (write_all ws) f ≡ ok listed)
            × IsListing (all_written ws) f listed)
in_memory-refines ws =
    let p : Job → Bool = λ j. not (is_terminal j.status) in
    let m = write_all ws in
    let keyed = write_all-IsKeyed ws in
    (
      λ k. ap ok (lookup-write_all ws k),
      (
        keep p (values m),
        refl,
        λ j. (
          λ l.
              let found = Mem-keep p j (values m) l in
              (
                sym (lookup-write_all ws j.job_id) ∙ values-lookup m j keyed found.0,
                ground (arith, found.1, has_ended_lem j.status),
              ),
          λ e.
              keep-Mem p j (values m) (lookup-values m j keyed (lookup-write_all ws j.job_id ∙ e.0))
                (ground (arith, e.1, has_ended_lem j.status)),
        ),
      ),
      λ f. (list_memory m f, refl, list-IsListing ws f),
    )
