-- ===== src/Mock/Views.antt =====
-- What the scripted provider reports: `discover`, `capabilities`, `supports` and `queue` of
-- providers/mock/src/lib.rs.
use kiln_print.Prelude.{
  ℕ, ◌+◌, String, Bool, false, Option, none, some, then_some, List, [], ◌∷◌, keep, map, length, Map,
  lookup, values, leb, str_eq, if◌then◌else◌,
}
use kiln_print.Error.{Result, ok, err, Message}
use kiln_print.Printer.{
  Printer, PrinterState, PrinterCondition, PrinterCapabilities, Orientation, PaperSize,
}
use kiln_print.Engine.Submit.Types.{PayloadKind}
use kiln_print.Engine.Queue.{QueueEntry}
use kiln_print.Mock.{MockPrinter, SpooledJob, State, find_mock}

module _ (derive : String → String → String) (provider_id : String) where
  unfoldable pub to_printer : MockPrinter → ℕ → Printer
  to_printer m queued = record {
    id = derive provider_id m.name;
    name = m.name;
    display_name = m.name;
    provider = provider_id;
    connection = m.connection;
    driver = some "Kiln Mock Driver";
    port = some "MOCK:";
    location = none;
    default = m.default;
    online = m.online;
    status = if m.online then PrinterState.ready else PrinterState.offline;
    conditions = if m.online then [] else PrinterCondition.offline ∷ [];
    queued_jobs = some queued;
    language = m.language;
    capabilities = none;
  }

  abbrev queued_on : {P : Type 0} → State P → MockPrinter → ℕ
  queued_on s m = length (keep (λ (j : SpooledJob). str_eq j.printer m.name) (values s.jobs))

  unfoldable pub discover : {P : Type 0} → State P → Result (List Printer)
  unfolding to_printer
  discover s = elim s.discovery_error [
    | some e ↦ err e
    | none ↦ ok (map (λ m. to_printer m (queued_on s m)) s.printers)
  ]

-- A size in millimetres is the bit pattern of an `f64`: 210 by 297.
abbrev a4 : PaperSize
a4 = record { id = "9"; name = "A4"; width_mm = 0x406A400000000000; height_mm = 0x4072900000000000 }

abbrev capabilities_of : MockPrinter → PrinterCapabilities
capabilities_of m = record {
  paper_sizes = then_some m.text (a4 ∷ []);
  color = some false;
  duplex = none;
  resolutions = some (record { x_dpi = 203; y_dpi = 203 } ∷ []);
  max_copies = some 999;
  collate = none;
  orientations = some (Orientation.portrait ∷ Orientation.landscape ∷ []);
  trays = none;
  raw = some m.raw;
  datatypes = some ("RAW" ∷ []);
  document_types = [];
}

unfoldable pub mock_capabilities : {P : Type 0} → State P → Printer → Result PrinterCapabilities
unfolding find_mock
mock_capabilities s p = elim (find_mock s.printers p) [
  | err e ↦ err e
  | ok m ↦ ok (capabilities_of m)
]

abbrev takes : MockPrinter → PayloadKind → Bool
takes m PayloadKind.raw = m.raw
takes m PayloadKind.text = m.text
takes m PayloadKind.pdf = m.text
takes m PayloadKind.image = m.text

unfoldable pub supports : {P : Type 0} → State P → Printer → PayloadKind → Bool
unfolding find_mock
supports s p kind = elim (find_mock s.printers p) [ err e ↦ false | ok m ↦ takes m kind ]

-- The jobs of a printer by their ids, the lowest first.
unfoldable pub insert_id : ℕ → List ℕ → List ℕ
insert_id id [] = id ∷ []
insert_id id (k ∷ ks) = let rest = insert_id id ks in if leb id k then id ∷ k ∷ ks else k ∷ rest

unfoldable pub ids_of : String → Map SpooledJob → List ℕ
unfolding insert_id
ids_of name [] = []
ids_of name ((id, j) ∷ rest) =
    let ids = ids_of name rest in if str_eq j.printer name then insert_id id ids else ids

module _ {P : Type 0} (shown : Message → String) (s : State P) where
  abbrev name_of : Option SpooledJob → Option String
  name_of none = none
  name_of (some j) = some (shown j.document_name)

  unfoldable pub entries_from : ℕ → List ℕ → List QueueEntry
  entries_from at [] = []
  entries_from at (id ∷ ids) =
      record {
        spooler_job_id = id;
        document_name = name_of (lookup id s.jobs);
        status = [];
        status_text = none;
        position = some (at + 1);
        total_pages = none;
        pages_printed = none;
        size_bytes = none;
        submitted_at = none;
        kiln_job = none;
      }
      ∷ entries_from (at + 1) ids

  unfoldable pub mock_queue : Printer → Result (List QueueEntry)
  unfolding entries_from ids_of
  mock_queue p = ok (entries_from 0 (ids_of p.name s.jobs))
