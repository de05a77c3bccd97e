-- ===== src/Examples/Repository.antt =====
-- The in-memory store at concrete jobs (print-core/src/repository.rs).
use kiln_print.Prelude.{ℕ, ◌≡◌, ◌↔◌, refl, none, List, [], ◌∷◌, Memᴰ, Map}
use kiln_print.Error.{ok}
use kiln_print.Job.{Job, JobStatus}
use kiln_print.Repository.{JobFilter, list_memory, purge_memory, in_memory}
use kiln_print.Repository.Writes.{Write, inserted, purged, write_all, all_written}
use kiln_print.Repository.Refinement.{IsPending, IsListing, in_memory-refines}
use kiln_print.Examples.Data.{fresh_job, queued_job}

abbrev ended_job : Job
ended_job = record fresh_job { job_id = 8; status = JobStatus.completed; created_at = 900 }

abbrev store : Map Job
store = (8, ended_job) ∷ (7, queued_job) ∷ []

abbrev anything : JobFilter
anything = record {
  client_id = none;
  printer_id = none;
  statuses = [];
  since = none;
  until = none;
  limit = 0;
  offset = 0;
}

newest_first : list_memory store anything ≡ queued_job ∷ ended_job ∷ []
unfolding list_memory
newest_first = refl

one_purged : (purge_memory store 950).1 ≡ 1
unfolding purge_memory
one_purged = refl

abbrev writes : List Write
writes = inserted queued_job ∷ purged 950 ∷ inserted ended_job ∷ []

in_memory-refines_example :
    ((k : ℕ) → in_memory.get (write_all writes) k ≡ ok (all_written writes k))
    × ((found : List Job) × (in_memory.non_terminal (write_all writes) ≡ ok found)
        × ((j : Job) → Memᴰ j found ↔ IsPending (all_written writes) j))
    × ((f : JobFilter)
        → (listed : List Job) × (in_memory.list (write_all writes) f ≡ ok listed)
          × IsListing (all_written writes) f listed)
in_memory-refines_example = in_memory-refines writes
