-- ===== src/Engine/Queue/Laws.antt =====
-- The two views of a printer's queue agree (print-core/src/engine/mod.rs).
use kiln_print.Prelude.{
  ℕ, suc, ◌+◌, ◌≡◌, refl, sym, ap, ◌∙◌, Bool, true, ◌&&◌, some, inl, inr, List, [], ◌∷◌, arith,
  keep, keep-keep, keep_all, find-holds, length, All, All-map, All-of, find-All, All-keep, values,
  leb, ==_iff, eq_iff, Bool-cases, Option-cases, if◌then◌else◌,
}
use kiln_print.Job.{Job, request_accepted, submitting, spooler_accepted, device_delivered}
use kiln_print.Printer.{Printer}
use kiln_print.Engine.Types.{Inner}
use kiln_print.Engine.Restart.{active_jobs, insert_oldest, sort_oldest}
use kiln_print.Engine.Queue.{
  QueueEntry, is_of, is_held, has_spooler_id, link, snapshot, tally, summarise,
}

abbrev held : Job → Bool
held j = is_held j.delivery

tally-held : (js : List Job) → (tally js).0 ≡ length (keep held js)
unfolding tally
tally-held [] = refl
tally-held (j ∷ js) =
    elim j.delivery
      as (λ d.
        (elim d as (λ x. ℕ × ℕ) [
          | request_accepted ↦ ((tally js).0 + 1, (tally js).1)
          | submitting ↦ ((tally js).0 + 1, (tally js).1)
          | spooler_accepted ↦ ((tally js).0, (tally js).1 + 1)
          | device_delivered ↦ ((tally js).0, (tally js).1)
        ]).0
        ≡ length (if is_held d then j ∷ keep held js else keep held js)) [
          | request_accepted ↦ omega (arith, tally-held js)
          | submitting ↦ omega (arith, tally-held js)
          | spooler_accepted ↦ tally-held js
          | device_delivered ↦ tally-held js
        ]

-- A test on the length of what passes it, pushed through the sort.
module _ (p : Job → Bool) where
  length-keep-cons :
      (j : Job) (xs ys : List Job)
      → length (keep p xs) ≡ length (keep p ys)
      → length (keep p (j ∷ xs)) ≡ length (keep p (j ∷ ys))
  length-keep-cons j xs ys h = elim (Bool-cases (p j)) [
    | inl t ↦ rw (t, keep) (ap suc h)
    | inr f ↦ rw (f, keep) h
  ]

  length-keep-swap :
      (j k : Job) (xs : List Job) → length (keep p (k ∷ j ∷ xs)) ≡ length (keep p (j ∷ k ∷ xs))
  length-keep-swap j k xs = elim (Bool-cases (p j)) [
    | inl t ↦ elim (Bool-cases (p k)) [
      | inl u ↦ rw (t, u, keep) refl
      | inr u ↦ rw (t, u, keep) refl
    ]
    | inr f ↦ elim (Bool-cases (p k)) [
      | inl u ↦ rw (f, u, keep) refl
      | inr u ↦ rw (f, u, keep) refl
    ]
  ]

  length-keep-insert :
      (j : Job) (ks : List Job) → length (keep p (insert_oldest j ks)) ≡ length (keep p (j ∷ ks))
  unfolding insert_oldest
  length-keep-insert j [] = refl
  length-keep-insert j (k ∷ ks) = elim (Bool-cases (leb j.created_at k.created_at)) [
    | inl t ↦ rw (t, insert_oldest) refl
    | inr f ↦
        rw (f, insert_oldest)
          (length-keep-cons k (insert_oldest j ks) (j ∷ ks) (length-keep-insert j ks)
            ∙ length-keep-swap j k ks)
  ]

  length-keep-sort : (js : List Job) → length (keep p (sort_oldest js)) ≡ length (keep p js)
  unfolding sort_oldest
  length-keep-sort [] = refl
  length-keep-sort (j ∷ js) =
      length-keep-insert j (sort_oldest js)
      ∙ length-keep-cons j (sort_oldest js) js (length-keep-sort js)

summary-snapshot :
    {R : Type 0} (p : Printer) (entries : List QueueEntry) (s : Inner R)
    → (summarise (active_jobs (λ j. true) s) p).agent_queued
      ≡ length (snapshot p entries s).agent_queue
unfolding summarise snapshot active_jobs
summary-snapshot p entries s =
    let js = values s.active in
    let both : Job → Bool = λ j. is_of p j && held j in
    tally-held (keep (is_of p) (sort_oldest (keep (λ j. true) js)))
    ∙ ap length (keep-keep held (is_of p) (sort_oldest (keep (λ j. true) js)))
    ∙ length-keep-sort both (keep (λ j. true) js)
    ∙ ap (λ xs. length (keep both xs)) (keep_all js)
    ∙ sym (ap length (keep-keep held (is_of p) js))
    ∙ sym (length-keep-sort held (keep (is_of p) js))

insert_oldest-All :
    (Q : Job → Type 0) (j : Job) (ks : List Job) → Q j → All Q ks → All Q (insert_oldest j ks)
unfolding insert_oldest
insert_oldest-All Q j [] q h = (q, h)
insert_oldest-All Q j (k ∷ ks) q h = elim (Bool-cases (leb j.created_at k.created_at)) [
  | inl t ↦ rw (t, insert_oldest) (q, h)
  | inr f ↦ rw (f, insert_oldest) (h.0, insert_oldest-All Q j ks q h.1)
]

sort_oldest-All : (Q : Job → Type 0) (js : List Job) → All Q js → All Q (sort_oldest js)
unfolding sort_oldest
sort_oldest-All Q [] h = h
sort_oldest-All Q (j ∷ js) h = insert_oldest-All Q j (sort_oldest js) h.0 (sort_oldest-All Q js h.1)

-- What a linked entry shows is a job of that printer, with the entry's id in the spooler.
abbrev pub Linked : Printer → QueueEntry → Type 0
Linked p e =
    (j : Job)
    → e.kiln_job ≡ some j
    → (j.printer_id ≡ some p.id) × (j.spooler_job_id ≡ some e.spooler_job_id)

is_of-printer_id : (p : Printer) (j : Job) → is_of p j ≡ true → j.printer_id ≡ some p.id
is_of-printer_id p j h = elim (Option-cases j.printer_id) [
  | inl n ↦ absurd (ground (arith, n, h))
  | inr (id, e) ↦ ground (arith, e, h, eq_iff id p.id)
]

has_spooler_id-id : (n : ℕ) (j : Job) → has_spooler_id n j ≡ true → j.spooler_job_id ≡ some n
has_spooler_id-id n j h = elim (Option-cases j.spooler_job_id) [
  | inl m ↦ absurd (ground (arith, m, h))
  | inr (id, e) ↦ ground (arith, e, h, ==_iff id n)
]

link-Linked :
    (p : Printer) (ours : List Job) (e : QueueEntry)
    → All (λ (j : Job). is_of p j ≡ true) ours
    → Linked p (link ours e)
unfolding link
link-Linked p ours e h j f =
    let id = e.spooler_job_id in
    (
      is_of-printer_id p j (find-All (λ k. is_of p k ≡ true) (has_spooler_id id) ours j h f),
      has_spooler_id-id id j (find-holds (has_spooler_id id) ours j f),
    )

snapshot-Linked :
    {R : Type 0} (p : Printer) (entries : List QueueEntry) (s : Inner R)
    → All (Linked p) (snapshot p entries s).spooler_queue
unfolding snapshot active_jobs
snapshot-Linked p entries s =
    let ours = active_jobs (is_of p) s in
    All-map (Linked p) (link ours) entries (
      All-of (λ e. Linked p (link ours e))
        (λ e. link-Linked p ours e (
          sort_oldest-All (λ j. is_of p j ≡ true) (keep (is_of p) (values s.active))
            (All-keep (is_of p) (values s.active))))
        entries)

-- The number of a printer's jobs that the summary says the agent still holds is the length of the
-- agent's queue in the detailed view of that printer, whatever the spooler answers; and every job of
-- the agent that the detailed view shows beside an entry of the spooler's queue belongs to that
-- printer and was accepted by the spooler under that entry's id.
pub snapshot_lem :
    {R : Type 0} (p : Printer) (entries : List QueueEntry) (s : Inner R)
    → ((summarise (active_jobs (λ j. true) s) p).agent_queued
        ≡ length (snapshot p entries s).agent_queue)
      × All (Linked p) (snapshot p entries s).spooler_queue
snapshot_lem p entries s = (summary-snapshot p entries s, snapshot-Linked p entries s)
