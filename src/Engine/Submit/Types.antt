-- ===== src/Engine/Submit/Types.antt =====
-- The data of a submission: `EngineConfig`, `PrinterScope`, `Submitter` and `Prepared` of
-- print-core/src/engine/mod.rs, the request of print-core/src/model/document.rs, and what the engine
-- sees of providers, protocols and renderers (print-core/src/provider.rs, protocol.rs, renderer.rs).
-- `C` is the content of a document, `P` that of a payload, `F` a paper size.
use kiln_print.Prelude.{ℕ, ◌*◌, String, Bool, false, Option, some, List, [], ◌∷◌}
use kiln_print.Error.{Result, Message}
use kiln_print.Job.{DocumentType}
use kiln_print.Printer.{Printer}
use kiln_print.Budget.{ByteBudget}
use kiln_print.Queues.{PrinterQueues}
use kiln_print.Engine.Types.{Inner}

-- Durations are milliseconds.
pub record EngineConfig : Type 0 where
  pub queue_capacity_per_printer : ℕ
  pub max_queued_bytes : ℕ
  pub max_document_bytes : ℕ
  pub max_copies : ℕ
  pub provider_concurrency : ℕ
  pub monitor_concurrency : ℕ
  pub render_concurrency : ℕ
  pub submit_timeout : ℕ
  pub monitor_interval : ℕ
  pub monitor_max_interval : ℕ
  pub discovery_interval : ℕ
  pub discovery_min_gap : ℕ
  pub strict_languages : Bool
  pub job_retention : Option ℕ

abbrev pub default_config : EngineConfig
default_config = record {
  queue_capacity_per_printer = 128;
  max_queued_bytes = 512 * 1024 * 1024;
  max_document_bytes = 64 * 1024 * 1024;
  max_copies = 999;
  provider_concurrency = 4;
  monitor_concurrency = 4;
  render_concurrency = 2;
  submit_timeout = 120 * 1000;
  monitor_interval = 1000;
  monitor_max_interval = 10 * 1000;
  discovery_interval = 5 * 1000;
  discovery_min_gap = 2 * 1000;
  strict_languages = false;
  job_retention = some (30 * 24 * 3600 * 1000);
}

pub data PrinterScope : Type 0 where
  everywhere : PrinterScope
  only : List String → PrinterScope

pub record Submitter : Type 0 where
  pub client_id : String
  pub printers : PrinterScope

pub data PrinterSelector : Type 0 where
  by_id : String → PrinterSelector
  by_name : String → PrinterSelector

-- A document by what `document_type`, `size_bytes` and `language` answer.
pub record Document (C : Type 0) : Type 0 where
  pub document_type : DocumentType
  pub size_bytes : ℕ
  pub language : Option String
  pub content : C

pub record PrintRequest (C : Type 0) : Type 0 where
  pub printer : PrinterSelector
  pub document : Document C
  pub copies : ℕ
  pub job_name : Option String
  pub idempotency_key : Option String

pub data PayloadKind : Type 0 where
  raw text pdf image : PayloadKind

abbrev pub all_kinds : List PayloadKind
all_kinds = raw ∷ text ∷ pdf ∷ image ∷ []

-- Of a raw payload the language matters to the engine.
pub data PrintPayload (P : Type 0) : Type 0 where
  raw_payload : P → Option String → PrintPayload P
  text_payload pdf_payload image_payload : P → PrintPayload P

abbrev pub kind : {P : Type 0} → PrintPayload P → PayloadKind
kind (raw_payload p language) = raw
kind (text_payload p) = text
kind (pdf_payload p) = pdf
kind (image_payload p) = image

-- `{:?}` of a payload kind, and `DocumentType::as_str`.
abbrev pub debug : PayloadKind → String
debug raw = "Raw"
debug text = "Text"
debug pdf = "Pdf"
debug image = "Image"

abbrev pub document_type_str : DocumentType → String
document_type_str DocumentType.raw = "RAW"
document_type_str DocumentType.text = "TEXT"
document_type_str DocumentType.pdf = "PDF"
document_type_str DocumentType.html = "HTML"
document_type_str DocumentType.image = "IMAGE"
document_type_str DocumentType.label = "LABEL"
document_type_str DocumentType.receipt = "RECEIPT"
document_type_str DocumentType.dot_matrix = "DOT_MATRIX"

pub record SubmitSpec (P : Type 0) : Type 0 where
  pub job_id : ℕ
  pub document_name : Message
  pub copies : ℕ
  pub payload : PrintPayload P

pub record Prepared (P : Type 0) : Type 0 where
  pub job_id : ℕ
  pub size : ℕ
  pub warnings : List String
  pub language : Option String
  pub spec : SubmitSpec P
  pub printer : Printer

pub record RenderTarget (F : Type 0) : Type 0 where
  pub printer : Printer
  pub accepted : List PayloadKind
  pub default_paper_mm : Option F

pub record Provider (F : Type 0) : Type 0 where
  pub supports : Printer → PayloadKind → Bool
  pub default_paper_mm : Printer → Option F

pub record Protocol (C : Type 0) : Type 0 where
  pub id : String
  pub inspect : C → List String

pub record Renderer (C P F : Type 0) : Type 0 where
  pub output_kinds : List PayloadKind
  pub validate : Document C → Result (Unit {0})
  pub render : Document C → RenderTarget F → Result (PrintPayload P)

-- The registries.
pub record Services (C P F : Type 0) : Type 0 where
  pub provider : String → Option (Provider F)
  pub protocol : String → Option (Protocol C)
  pub languages : List String
  pub renderer : DocumentType → Option (Renderer C P F)

-- An item of a printer's queue holds its reservation: the bytes of the job.
pub record QueuedJob (P : Type 0) : Type 0 where
  pub job_id : ℕ
  pub printer : Printer
  pub spec : SubmitSpec P
  pub reservation : ℕ

-- The state that a submission touches. `handed` lists the items that the printers' channels took.
pub record Agent (R S P : Type 0) : Type 0 where
  pub inner : Inner R
  pub budget : ByteBudget
  pub queues : PrinterQueues S
  pub handed : List (QueuedJob P)
