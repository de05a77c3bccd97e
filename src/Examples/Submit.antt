-- ===== src/Examples/Submit.antt =====
-- Submission at concrete requests (`PrintEngine::submit` of print-core/src/engine/mod.rs).
use kiln_print.Prelude.{
  ℕ, ◌≡◌, ◌⊎◌, refl, String, Bool, true, false, none, some, [], ◌∷◌, Map, arith, lookup, insert,
  ℕ_discrete, String-discrete,
}
use kiln_print.Error.{ok}
use kiln_print.Job.{Job, DocumentType, Job-discrete, DocumentType-discrete, JobStatus-discrete}
use kiln_print.Engine.Changes.{validate_change, address_change}
use kiln_print.Engine.{track, mutate}
use kiln_print.Printer.{Printer, ConnectionType, PrinterState}
use kiln_print.Repository.{in_memory}
use kiln_print.Engine.Submit.Types.{
  default_config, only, Submitter, by_id, PrintRequest, PayloadKind, raw_payload, Services, Agent,
}
use kiln_print.Engine.Submit.Checks.{validate_idempotency_key}
use kiln_print.Engine.Submit.JobNames.{sanitise_job_name}
use kiln_print.Engine.Submit.Pools.{Awaits, runs}
use kiln_print.Engine.Submit.Ends.{submit-gone}
use kiln_print.Engine.Submit.Accounts.{Same, Handed}
use kiln_print.Engine.Submit.Bytes.{submit-bytes}
use kiln_print.Engine.Submit.{Channels, accepted, submit}
use kiln_print.Examples.Data.{empty}

abbrev pub zebra : Printer
zebra = record {
  id = "mock-1";
  name = "Mock Zebra";
  display_name = "Mock Zebra";
  provider = "mock";
  connection = ConnectionType.usb;
  driver = none;
  port = none;
  location = none;
  default = true;
  online = true;
  status = PrinterState.ready;
  conditions = [];
  queued_jobs = none;
  language = some "ZPL";
  capabilities = none;
}

abbrev is_raw_kind : PayloadKind → Bool
is_raw_kind PayloadKind.raw = true
is_raw_kind _ = false

-- A label printer, raw data only, no inspection.
abbrev services : Services String String ℕ
services = record {
  provider = λ id.
      some (record {
        supports = λ printer kind. is_raw_kind kind;
        default_paper_mm = λ printer. none;
      });
  protocol = λ name. some (record { id = "ZPL"; inspect = λ content. [] });
  languages = "ZPL" ∷ [];
  renderer = λ kind. some (record {
    output_kinds = PayloadKind.raw ∷ [];
    validate = λ document. ok tt;
    render = λ document target. ok (raw_payload document.content (some "ZPL"));
  });
}

abbrev channels : Channels ℕ
channels = record { is_closed = λ s. false; channel = λ n. n; try_send = λ s. accepted }

abbrev calm : Awaits (Map Job) ℕ String
calm = record {
  resolving = λ a. a;
  resolved = ok zebra;
  inspecting = λ a. a;
  inspect_pool = runs;
  rendering = λ a. a;
  render_pool = runs;
  queueing = λ a. a;
  t = 1000;
  now = 1001;
}

abbrev lab : Submitter
lab = record { client_id = "lab-app"; printers = only ("mock zebra" ∷ []) }

abbrev label : PrintRequest String
label = record {
  printer = by_id "mock-1";
  document = record {
    document_type = DocumentType.raw;
    size_bytes = 120;
    language = some "zpl";
    content = "^XA^XZ";
  };
  copies = 1;
  job_name = some "  Label 42";
  idempotency_key = some "order-42";
}

abbrev idle : Agent (Map Job) ℕ String
idle = record {
  inner = empty;
  budget = record { used = 0; limit = 1000 };
  queues = record { limit = 128; senders = [] };
  handed = [];
}

-- The request is refused for its copies.
abbrev no_copies : PrintRequest String
no_copies = record label { copies = 0 }

submit-gone_example :
    lookup 9
      (submit in_memory channels services default_config lab no_copies 9 calm idle).0.inner.active
    ≡ none
unfolding lookup submit validate_idempotency_key track mutate insert validate_change Job-discrete
    ℕ_discrete String-discrete DocumentType-discrete JobStatus-discrete
submit-gone_example =
    submit-gone in_memory channels services default_config lab no_copies 9 calm
      (record {
        on_resolving = λ a h. h;
        on_inspecting = λ a h. h;
        on_rendering = λ a h. h;
        on_queueing = λ a h. h;
      })
      idle refl refl

submit-bytes_example :
    Same idle (submit in_memory channels services default_config lab label 9 calm idle).0
    ⊎ Handed idle (submit in_memory channels services default_config lab label 9 calm idle).0
submit-bytes_example =
    submit-bytes in_memory channels services default_config lab label 9 calm
      (record {
        resolving = λ a. record { used = refl; limit = refl; handed = refl };
        inspecting = λ a. record { used = refl; limit = refl; handed = refl };
        rendering = λ a. record { used = refl; limit = refl; handed = refl };
        queueing = λ a. record { used = refl; limit = refl; handed = refl };
      })
      idle (omega arith)

accepted_bytes :
    (submit in_memory channels services default_config lab label 9 calm idle).0.budget.used ≡ 120
unfolding submit validate_idempotency_key track mutate lookup insert validate_change Job-discrete
    ℕ_discrete String-discrete DocumentType-discrete JobStatus-discrete address_change
accepted_bytes = refl

-- job_names_are_sanitised
trimmed : sanitise_job_name " a b " ≡ "a b"
unfolding sanitise_job_name
trimmed = refl
