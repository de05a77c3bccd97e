-- ===== src/Repository/Laws.antt =====
-- What a repository promises to the engine, and that the in-memory one keeps it.
use kiln_print.Prelude.{ℕ, ◌≡◌, refl, some, ◌==◌, if◌then◌else◌, arith, lookup-insert}
use kiln_print.Error.{ok}
use kiln_print.Job.{Job}
use kiln_print.Repository.{JobRepository, in_memory}

-- A store that accepts every write and reads back what was written last.
pub record IsReliable {R : Type 0} (repo : JobRepository R) : Type 0 where
  pub insert_ok : (s : R) (j : Job) → (repo.insert_job s j).1 ≡ ok tt
  pub get-insert :
      (s : R) (j : Job) (k : ℕ)
      → repo.get (repo.insert_job s j).0 k ≡ (if j.job_id == k then ok (some j) else repo.get s k)
  pub get-update :
      (s : R) (j old : Job) (k : ℕ)
      → repo.get s j.job_id ≡ ok (some old)
      → repo.get (repo.update s j).0 k ≡ (if j.job_id == k then ok (some j) else repo.get s k)

pub in_memory-IsReliable : IsReliable in_memory
in_memory-IsReliable = record {
  insert_ok = λ s j. refl;
  get-insert = λ s j k. rw lookup-insert (ground arith);
  get-update = λ s j old k h. rw lookup-insert (ground arith);
}
