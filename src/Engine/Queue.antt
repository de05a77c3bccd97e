-- ===== src/Engine/Queue.antt =====
-- `PrintEngine::queue` and `queue_summary` of print-core/src/engine/mod.rs: the agent's queue beside
-- the spooler's (`QueueEntry` of print-core/src/provider.rs).
pub mod Laws
use kiln_print.Prelude.{
  ℕ, ◌+◌, String, Bool, true, false, Option, none, some, List, [], ◌∷◌, keep, find, map, ◌==◌,
  opt_str_eq, if◌then◌else◌,
}
use kiln_print.Error.{PrintError, Result, ok, err}
use kiln_print.Job.{
  Job, DeliveryStage, request_accepted, submitting, spooler_accepted, device_delivered,
}
use kiln_print.Printer.{Printer, PrinterState}
use kiln_print.Engine.Types.{Inner}
use kiln_print.Engine.Restart.{active_jobs}
use kiln_print.Engine.Submit.Pools.{Pool, blocking}

pub record QueueEntry : Type 0 where
  pub spooler_job_id : ℕ
  pub document_name : Option String
  pub status : List String
  pub status_text : Option String
  pub position : Option ℕ
  pub total_pages : Option ℕ
  pub pages_printed : Option ℕ
  pub size_bytes : Option ℕ
  pub submitted_at : Option ℕ
  pub kiln_job : Option Job

pub record PrinterQueueSnapshot : Type 0 where
  pub printer_id : String
  pub printer_name : String
  pub agent_queue : List Job
  pub spooler_queue : List QueueEntry

pub record QueueSummary : Type 0 where
  pub printer_id : String
  pub printer_name : String
  pub online : Bool
  pub status : PrinterState
  pub agent_queued : ℕ
  pub spooler_active : ℕ
  pub spooler_total : Option ℕ

abbrev pub is_of : Printer → Job → Bool
is_of p j = opt_str_eq j.printer_id (some p.id)

abbrev pub is_held : DeliveryStage → Bool
is_held request_accepted = true
is_held submitting = true
is_held _ = false

abbrev opt_eq : Option ℕ → ℕ → Bool
opt_eq none n = false
opt_eq (some m) n = m == n

abbrev pub has_spooler_id : ℕ → Job → Bool
has_spooler_id id j = opt_eq j.spooler_job_id id

unfoldable pub link : List Job → QueueEntry → QueueEntry
link ours e = record e { kiln_job = find (has_spooler_id e.spooler_job_id) ours }

unfoldable pub snapshot : {R : Type 0} → Printer → List QueueEntry → Inner R → PrinterQueueSnapshot
unfolding link active_jobs
snapshot p entries s =
    let ours = active_jobs (is_of p) s in
    record {
      printer_id = p.id;
      printer_name = p.name;
      agent_queue = keep (λ j. is_held j.delivery) ours;
      spooler_queue = map (link ours) entries;
    }

-- `resolved` and `found` are the results of the lookups of the printer and of its provider, `answer`
-- is the provider's, in its pool, and `others` is what all other tasks do meanwhile.
unfoldable pub queue :
    {R : Type 0}
    → Result Printer
    → Result (Unit {0})
    → Pool
    → Result (List QueueEntry)
    → (Inner R → Inner R)
    → Inner R
    → Inner R × Result PrinterQueueSnapshot
unfolding snapshot
queue (err e) found pool answer others s = (s, err e)
queue (ok p) (err e) pool answer others s = (s, err e)
queue (ok p) (ok u) pool answer others s =
    let s' = others s in
    elim (blocking pool answer) [
      | err e ↦ (s', err e)
      | ok entries ↦ (s', ok (snapshot p entries s'))
    ]

-- The two counters of the loop over a printer's jobs.
unfoldable pub tally : List Job → ℕ × ℕ
tally [] = (0, 0)
tally (j ∷ js) =
    let (held, spooled) = tally js in
    elim j.delivery [
      | request_accepted ↦ (held + 1, spooled)
      | submitting ↦ (held + 1, spooled)
      | spooler_accepted ↦ (held, spooled + 1)
      | device_delivered ↦ (held, spooled)
    ]

unfoldable pub summarise : List Job → Printer → QueueSummary
unfolding tally
summarise active p =
    let (agent_queued, spooler_active) = tally (keep (is_of p) active) in
    record {
      printer_id = p.id;
      printer_name = p.name;
      online = p.online;
      status = p.status;
      agent_queued = agent_queued;
      spooler_active = spooler_active;
      spooler_total = p.queued_jobs;
    }

-- `found` is what `printers` answers.
unfoldable pub queue_summary :
    {R : Type 0} → Result (List Printer) → Inner R → Result (List QueueSummary)
unfolding summarise active_jobs
queue_summary (err e) s = err e
queue_summary (ok found) s = ok (map (summarise (active_jobs (λ j. true) s)) found)
