-- ===== src/Examples/Queues.antt =====
-- A printer's queue in both views (print-core/src/engine/mod.rs).
use kiln_print.Prelude.{◌≡◌, refl, true, none, some, [], ◌∷◌, All, Map, length}
use kiln_print.Job.{Job}
use kiln_print.Engine.Types.{Inner}
use kiln_print.Engine.Restart.{active_jobs}
use kiln_print.Engine.Queue.{QueueEntry, snapshot, summarise}
use kiln_print.Engine.Queue.Laws.{Linked, snapshot_lem}
use kiln_print.Examples.Data.{queued_job, spooled_job}
use kiln_print.Examples.Submit.{zebra}

abbrev entry : QueueEntry
entry = record {
  spooler_job_id = 31;
  document_name = some "Label 43";
  status = "PRINTING" ∷ [];
  status_text = none;
  position = some 1;
  total_pages = none;
  pages_printed = none;
  size_bytes = some 120;
  submitted_at = some 1020;
  kiln_job = none;
}

-- One job that the agent holds, and one in the spooler.
abbrev next_job : Job
next_job = record spooled_job { job_id = 9 }

abbrev busy : Inner (Map Job)
busy = record {
  repo = [];
  active = (7, queued_job) ∷ (9, next_job) ∷ [];
  events = [];
  cancelling = [];
}

snapshot_lem_example :
    ((summarise (active_jobs (λ j. true) busy) zebra).agent_queued
      ≡ length (snapshot zebra (entry ∷ []) busy).agent_queue)
    × All (Linked zebra) (snapshot zebra (entry ∷ []) busy).spooler_queue
snapshot_lem_example = snapshot_lem zebra (entry ∷ []) busy

one_held : (summarise (active_jobs (λ j. true) busy) zebra).agent_queued ≡ 1
unfolding summarise active_jobs
one_held = refl
