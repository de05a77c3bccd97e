-- ===== src/Repository/Writes.antt =====
-- print-core/src/repository.rs: a partial map from ids to jobs, and its writes beside those of the
-- in-memory store.
use kiln_print.Prelude.{
  ◌&&◌, ltb, ℕ, ◌≡◌, refl, sym, ap, ◌∙◌, subst, inl, inr, Bool, true, false, not, Option, none,
  some, List, [], ◌∷◌, Memᴰ, arith, Map, lookup, insert, values, lookup-insert, ◌==◌, ==_iff,
  if◌then◌else◌, Bool-cases,
}
use kiln_print.Job.{Job, JobStatus, is_terminal}
use kiln_print.Repository.{is_expired, retain, purge_memory, in_memory}

-- What changes a store.
pub data Write : Type 0 where
  inserted updated : Job → Write
  purged : ℕ → Write

abbrev pub Jobs : Type 0
Jobs = ℕ → Option Job

-- The abstract map: a job is under its own id, and a purge forgets the expired ones.
abbrev put : Job → Jobs → Jobs
put j jobs k = if j.job_id == k then some j else jobs k

-- What a purge forgets: a job that ended, from before the cutoff.
abbrev pub has_ended : JobStatus → Bool
has_ended JobStatus.received = false
has_ended JobStatus.validating = false
has_ended JobStatus.queued = false
has_ended JobStatus.printing = false
has_ended JobStatus.completed = true
has_ended JobStatus.failed = true
has_ended JobStatus.cancelled = true

abbrev pub is_old : ℕ → Job → Bool
is_old cutoff j = has_ended j.status && ltb j.created_at cutoff

pub has_ended_lem : (s : JobStatus) → is_terminal s ≡ has_ended s
has_ended_lem s = ground arith

abbrev unless : (Job → Bool) → Option Job → Option Job
unless p none = none
unless p (some j) = if p j then none else some j

abbrev pub written : Write → Jobs → Jobs
written (inserted j) jobs k = put j jobs k
written (updated j) jobs k = put j jobs k
written (purged cutoff) jobs k = unless (is_old cutoff) (jobs k)

abbrev pub all_written : List Write → Jobs
all_written [] k = none
all_written (w ∷ ws) k = written w (all_written ws) k

-- The same on the store, the newest write first.
abbrev pub write : Write → Map Job → Map Job
unfolding purge_memory
write (inserted j) m = (in_memory.insert_job m j).0
write (updated j) m = (in_memory.update m j).0
write (purged cutoff) m = (in_memory.purge_terminal_before m cutoff).0

unfoldable pub write_all : List Write → Map Job
unfolding purge_memory
write_all [] = []
write_all (w ∷ ws) = write w (write_all ws)

-- Each job stands under its own id, once.
abbrev IsKeyed : Map Job → Type 0
IsKeyed [] = Unit {0}
IsKeyed ((k, j) ∷ m) = (k ≡ j.job_id) × (lookup k m ≡ none) × IsKeyed m

insert-IsKeyed : (j : Job) (m : Map Job) → IsKeyed m → IsKeyed (insert j.job_id j m)
unfolding insert lookup
insert-IsKeyed j [] h = (refl, refl, tt)
insert-IsKeyed j ((k, i) ∷ m) h = elim (Bool-cases (k == j.job_id)) [
  | inl t ↦
      rw (t, insert) (refl, subst (λ (n : ℕ). lookup n m ≡ none) ((==_iff k j.job_id).0 t) h.1, h.2)
  | inr f ↦ rw (f, insert) (h.0, rw lookup-insert (ground (arith, f, h.1)), insert-IsKeyed j m h.2)
]

retain-none :
    (p : Job → Bool) (k : ℕ) (m : Map Job) → lookup k m ≡ none → lookup k (retain p m) ≡ none
unfolding retain lookup
retain-none p k [] h = refl
retain-none p k ((i, j) ∷ m) h = ground (arith, retain-none p k m)

retain-IsKeyed : (p : Job → Bool) (m : Map Job) → IsKeyed m → IsKeyed (retain p m)
unfolding retain
retain-IsKeyed p [] h = tt
retain-IsKeyed p ((k, j) ∷ m) h = elim (Bool-cases (p j)) [
  | inl t ↦ rw (t, retain) (h.0, retain-none p k m h.1, retain-IsKeyed p m h.2)
  | inr f ↦ rw (f, retain) (retain-IsKeyed p m h.2)
]

lookup-retain :
    (p : Job → Bool) (k : ℕ) (m : Map Job)
    → IsKeyed m
    → lookup k (retain (λ j. not (p j)) m) ≡ unless p (lookup k m)
unfolding retain lookup
lookup-retain p k [] h = refl
lookup-retain p k ((i, j) ∷ m) h =
    let rest = lookup-retain p k m h.2 in
    elim (Bool-cases (p j)) [
      | inl t ↦ rw t elim (Bool-cases (i == k)) [
        | inl e ↦
            let gone : lookup k m ≡ none =
              subst (λ (n : ℕ). lookup n m ≡ none) ((==_iff i k).0 e) h.1 in
            let expired : unless p (lookup k ((i, j) ∷ m)) ≡ none = ground (arith, e, t) in
            rest ∙ ap (unless p) gone ∙ sym expired
        | inr d ↦ rw d rest
      ]
      | inr f ↦ rw f ground (arith, rest, f)
    ]

pub values-lookup :
    (m : Map Job) (j : Job) → IsKeyed m → Memᴰ j (values m) → lookup j.job_id m ≡ some j
unfolding lookup
values-lookup [] j h l = elim l [ ]
values-lookup ((k, i) ∷ m) j h (Memᴰ.head e) =
    let at : k ≡ j.job_id = h.0 ∙ ap (λ (x : Job). x.job_id) (sym e) in
    let t : (k == j.job_id) ≡ true = (==_iff k j.job_id).1 at in rw (lookup, t) (ap some (sym e))
values-lookup ((k, i) ∷ m) j h (Memᴰ.tail l) =
    let found = values-lookup m j h.2 l in
    elim (Bool-cases (k == j.job_id)) [
      | inl t ↦
          let gone : lookup j.job_id m ≡ none =
            subst (λ (n : ℕ). lookup n m ≡ none) ((==_iff k j.job_id).0 t) h.1 in
          absurd (ground (arith, gone, found))
      | inr f ↦ rw (lookup, f) found
    ]

pub lookup-values :
    (m : Map Job) (j : Job) → IsKeyed m → lookup j.job_id m ≡ some j → Memᴰ j (values m)
unfolding lookup
lookup-values [] j h e = absurd (ground (arith, e))
lookup-values ((k, i) ∷ m) j h e = elim (Bool-cases (k == j.job_id)) [
  | inl t ↦ Memᴰ.head (sym (ground (arith, t, e)))
  | inr f ↦ Memᴰ.tail (lookup-values m j h.2 (ground (arith, f, e)))
]

write-IsKeyed : (w : Write) (m : Map Job) → IsKeyed m → IsKeyed (write w m)
unfolding write insert
write-IsKeyed (inserted j) m h = insert-IsKeyed j m h
write-IsKeyed (updated j) m h = insert-IsKeyed j m h
write-IsKeyed (purged cutoff) m h = retain-IsKeyed (λ j. not (is_expired cutoff j)) m h

pub write_all-IsKeyed : (ws : List Write) → IsKeyed (write_all ws)
unfolding write_all
write_all-IsKeyed [] = tt
write_all-IsKeyed (w ∷ ws) = write-IsKeyed w (write_all ws) (write_all-IsKeyed ws)

unless-old : (cutoff : ℕ) (o : Option Job) → unless (is_expired cutoff) o ≡ unless (is_old cutoff) o
unless-old cutoff none = refl
unless-old cutoff (some j) =
    ap (λ (t : Bool). if t && ltb j.created_at cutoff then none else some j)
      (has_ended_lem j.status)

lookup-write :
    (w : Write) (m : Map Job) (jobs : Jobs) (k : ℕ)
    → IsKeyed m
    → ((n : ℕ) → lookup n m ≡ jobs n)
    → lookup k (write w m) ≡ written w jobs k
unfolding purge_memory
lookup-write (inserted j) m jobs k h e = rw (lookup-insert, e k) refl
lookup-write (updated j) m jobs k h e = rw (lookup-insert, e k) refl
lookup-write (purged cutoff) m jobs k h e =
    lookup-retain (is_expired cutoff) k m h
    ∙ ap (unless (is_expired cutoff)) (e k)
    ∙ unless-old cutoff (jobs k)

pub lookup-write_all : (ws : List Write) (k : ℕ) → lookup k (write_all ws) ≡ all_written ws k
unfolding write_all lookup
lookup-write_all [] k = refl
lookup-write_all (w ∷ ws) k =
    lookup-write w (write_all ws) (all_written ws) k (write_all-IsKeyed ws) (lookup-write_all ws)
