-- ===== src/Repository.antt =====
-- print-core/src/repository.rs: the persistence interface, job filters and the in-memory store.
-- An operation that writes returns the new state of the store beside its result.
pub mod Laws
pub mod Listing
pub mod Writes
pub mod Refinement
use kiln_print.Prelude.{
  ℕ, ◌-◌, min, String, Bool, true, false, not, ◌&&◌, ◌||◌, Option, none, some, List, [], ◌∷◌, ltb,
  leb, ◌==◌, str_eq, opt_str_eq, if◌then◌else◌, keep, any, find, take, drop, length, Map, lookup,
  insert, values,
}
use kiln_print.Error.{Result, ok}
use kiln_print.Job.{Job, JobStatus, is_terminal}
use kiln_print.Job.Status.{as_u8}

pub record JobFilter : Type 0 where
  pub client_id : Option String
  pub printer_id : Option String
  pub statuses : List JobStatus
  pub since : Option ℕ
  pub until : Option ℕ
  pub limit : ℕ
  pub offset : ℕ

abbrev pub max_limit : ℕ
max_limit = 500

unfoldable pub effective_limit : JobFilter → ℕ
effective_limit f = if f.limit == 0 then 100 else min f.limit max_limit

-- `Option::is_none_or`.
abbrev is_none_or {ℓ} : {A : Type ℓ} → (A → Bool) → Option A → Bool
is_none_or p none = true
is_none_or p (some a) = p a

abbrev is_empty {ℓ} : {A : Type ℓ} → List A → Bool
is_empty [] = true
is_empty (x ∷ xs) = false

unfoldable pub matches : JobFilter → Job → Bool
matches f j =
    is_none_or (λ c. str_eq j.client_id c) f.client_id
    && is_none_or (λ p. opt_str_eq j.printer_id (some p)) f.printer_id
    && (is_empty f.statuses || any (λ s. as_u8 s == as_u8 j.status) f.statuses)
    && is_none_or (λ s. leb s j.created_at) f.since
    && is_none_or (λ u. ltb j.created_at u) f.until

-- The trait. `R` is the state of the store.
pub record JobRepository (R : Type 0) : Type 0 where
  pub insert_job : R → Job → R × Result (Unit {0})
  pub update : R → Job → R × Result (Unit {0})
  pub get : R → ℕ → Result (Option Job)
  pub list : R → JobFilter → Result (List Job)
  pub find_by_idempotency_key : R → String → String → Result (Option Job)
  pub non_terminal : R → Result (List Job)
  pub purge_terminal_before : R → ℕ → R × Result ℕ

-- A stable sort by descending creation time.
unfoldable pub insert_newest : Job → List Job → List Job
insert_newest j [] = j ∷ []
insert_newest j (k ∷ ks) =
    if leb k.created_at j.created_at then j ∷ k ∷ ks else k ∷ insert_newest j ks

unfoldable pub sort_newest : List Job → List Job
unfolding insert_newest
sort_newest [] = []
sort_newest (j ∷ js) = insert_newest j (sort_newest js)

unfoldable pub list_memory : Map Job → JobFilter → List Job
unfolding sort_newest matches effective_limit
list_memory m f =
    take (effective_limit f) (drop f.offset (sort_newest (keep (matches f) (values m))))

abbrev has_key : String → String → Job → Bool
has_key client_id key j = str_eq j.client_id client_id && opt_str_eq j.idempotency_key (some key)

abbrev pub is_expired : ℕ → Job → Bool
is_expired cutoff j = is_terminal j.status && ltb j.created_at cutoff

-- `HashMap::retain`.
unfoldable pub retain : (Job → Bool) → Map Job → Map Job
retain p [] = []
retain p ((k, j) ∷ m) = let rest = retain p m in if p j then (k, j) ∷ rest else rest

unfoldable pub purge_memory : Map Job → ℕ → Map Job × ℕ
unfolding retain
purge_memory m cutoff =
    let m' = retain (λ j. not (is_expired cutoff j)) m in (m', length m - length m')

-- `InMemoryJobRepository`, whose mutex is not poisoned.
abbrev pub in_memory : JobRepository (Map Job)
in_memory = record {
  insert_job = λ m j. (insert j.job_id j m, ok tt);
  update = λ m j. (insert j.job_id j m, ok tt);
  get = λ m id. ok (lookup id m);
  list = λ m f. ok (list_memory m f);
  find_by_idempotency_key = λ m client_id key. ok (find (has_key client_id key) (values m));
  non_terminal = λ m. ok (keep (λ j. not (is_terminal j.status)) (values m));
  purge_terminal_before = λ m cutoff. let (m', n) = purge_memory m cutoff in (m', ok n);
}
