-- ===== src/Engine/Types.antt =====
-- The data of the engine: events (print-core/src/events.rs), what a provider reports
-- (print-core/src/provider.rs), and the shared state (print-core/src/engine/mod.rs).
use kiln_print.Prelude.{ℕ, Option, List, String, Map}
use kiln_print.Error.{ErrorCode, PrintError}
use kiln_print.Job.{Job}
use kiln_print.Printer.{Printer}

pub data JobEventKind : Type 0 where
  created queued spooled printing updated completed failed cancelled : JobEventKind

pub data PrinterEventKind : Type 0 where
  connected disconnected status_changed : PrinterEventKind

pub data EngineEvent : Type 0 where
  job_event : JobEventKind → Job → EngineEvent
  printer_event : PrinterEventKind → Printer → EngineEvent

pub data SubmitOutcome : Type 0 where
  spooled : ℕ → SubmitOutcome
  delivered : SubmitOutcome

pub data ProviderJobState : Type 0 where
  pending printing : ProviderJobState
  blocked : ErrorCode → Option String → ProviderJobState
  printed : ProviderJobState
  failed : PrintError → ProviderJobState
  cancelled gone : ProviderJobState

-- The part of `Inner` that job changes touch. `events` holds what was sent, oldest first.
pub record Inner (R : Type 0) : Type 0 where
  pub repo : R
  pub active : Map Job
  pub events : List EngineEvent
  pub cancelling : List ℕ

pub record Mutated : Type 0 where
  pub job : Job
  pub event : Option JobEventKind

-- A change to a job, as the closures that `mutate` is given.
abbrev pub Change : Type 0
Change = Job → Job × Option JobEventKind
