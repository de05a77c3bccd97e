-- ===== src/Engine/Names.antt =====
-- The wire names of events: `JobEventKind::name` and `EngineEvent::name` of
-- print-core/src/events.rs.
use kiln_print.Prelude.{String, ◌≡◌, refl, sym, ap, ◌∙◌, str_eq, Option, some, List, [], ◌∷◌, find}
use kiln_print.Engine.Types.{JobEventKind, PrinterEventKind, EngineEvent, job_event, printer_event}

unfoldable pub job_name : JobEventKind → String
job_name JobEventKind.created = "job.created"
job_name JobEventKind.queued = "job.queued"
job_name JobEventKind.spooled = "job.spooled"
job_name JobEventKind.printing = "job.printing"
job_name JobEventKind.updated = "job.updated"
job_name JobEventKind.completed = "job.completed"
job_name JobEventKind.failed = "job.failed"
job_name JobEventKind.cancelled = "job.cancelled"

unfoldable pub name : EngineEvent → String
unfolding job_name
name (job_event kind j) = job_name kind
name (printer_event PrinterEventKind.connected p) = "printer.connected"
name (printer_event PrinterEventKind.disconnected p) = "printer.disconnected"
name (printer_event PrinterEventKind.status_changed p) = "printer.status.changed"

-- The kind of an event, without the job or the printer that it carries.
pub data Kind : Type 0 where
  of_job : JobEventKind → Kind
  of_printer : PrinterEventKind → Kind

abbrev pub kind_of : EngineEvent → Kind
kind_of (job_event kind j) = of_job kind
kind_of (printer_event kind p) = of_printer kind

-- The name of a kind, as `name` spells it.
abbrev spelled : Kind → String
spelled (of_job kind) = job_name kind
spelled (of_printer PrinterEventKind.connected) = "printer.connected"
spelled (of_printer PrinterEventKind.disconnected) = "printer.disconnected"
spelled (of_printer PrinterEventKind.status_changed) = "printer.status.changed"

abbrev all_kinds : List Kind
all_kinds =
    of_job JobEventKind.created
    ∷ of_job JobEventKind.queued
    ∷ of_job JobEventKind.spooled
    ∷ of_job JobEventKind.printing
    ∷ of_job JobEventKind.updated
    ∷ of_job JobEventKind.completed
    ∷ of_job JobEventKind.failed
    ∷ of_job JobEventKind.cancelled
    ∷ of_printer PrinterEventKind.connected
    ∷ of_printer PrinterEventKind.disconnected
    ∷ of_printer PrinterEventKind.status_changed
    ∷ []

-- The kind of a name, as a client reads it back.
abbrev read : String → Option Kind
read n = find (λ kind. str_eq (spelled kind) n) all_kinds

read-spelled : (kind : Kind) → read (spelled kind) ≡ some kind
unfolding job_name
read-spelled (of_job JobEventKind.created) = refl
read-spelled (of_job JobEventKind.queued) = refl
read-spelled (of_job JobEventKind.spooled) = refl
read-spelled (of_job JobEventKind.printing) = refl
read-spelled (of_job JobEventKind.updated) = refl
read-spelled (of_job JobEventKind.completed) = refl
read-spelled (of_job JobEventKind.failed) = refl
read-spelled (of_job JobEventKind.cancelled) = refl
read-spelled (of_printer PrinterEventKind.connected) = refl
read-spelled (of_printer PrinterEventKind.disconnected) = refl
read-spelled (of_printer PrinterEventKind.status_changed) = refl

name_lem : (e : EngineEvent) → name e ≡ spelled (kind_of e)
unfolding name
name_lem (job_event kind j) = refl
name_lem (printer_event PrinterEventKind.connected p) = refl
name_lem (printer_event PrinterEventKind.disconnected p) = refl
name_lem (printer_event PrinterEventKind.status_changed p) = refl

-- A client that reads the name of an event knows its kind: events with the same name are both about
-- jobs, or both about printers, and of the same kind.
pub name_injective : (e f : EngineEvent) → name e ≡ name f → kind_of e ≡ kind_of f
name_injective e f h =
    let r : some (kind_of e) ≡ some (kind_of f) =
      sym (read-spelled (kind_of e))
      ∙ ap read (sym (name_lem e) ∙ h ∙ name_lem f)
      ∙ read-spelled (kind_of f) in
    cc
