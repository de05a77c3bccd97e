-- ===== src/Mock.antt =====
-- The scripted provider of providers/mock/src/lib.rs. `P` is the content of a payload; `derive` makes
-- a printer's id from a hash, and `shown` prints a message. A panic is `none`.
pub mod Laws
pub mod Script
pub mod Views
use kiln_print.Prelude.{
  ℕ, zero, suc, ◌+◌, ◌%◌, ◌^◌, String, Bool, true, false, not, Option, none, some, then_some, List,
  [], ◌∷◌, ◌++◌, find, keep, map, length, Map, lookup, insert, remove, values, leb, str_eq,
  if◌then◌else◌,
}
use kiln_print.Error
use kiln_print.Error.{
  PrintError, Result, ok, err, ok_or, text, Message, printer_offline, invalid_job_state,
  printer_not_found_error, with_printer,
}
use kiln_print.Printer.{
  Printer, PrinterState, PrinterCondition, ConnectionType, PrinterCapabilities, Orientation,
  PaperSize,
}
use kiln_print.Engine.Types.{ProviderJobState, SubmitOutcome}
use kiln_print.Engine.Submit.Types.{PrintPayload, PayloadKind, SubmitSpec}
use kiln_print.Engine.Queue.{QueueEntry}

-- A delay is in milliseconds.
pub data SubmitBehavior : Type 0 where
  spool deliver : SubmitBehavior
  refuse_with : PrintError → SubmitBehavior
  delay : ℕ → SubmitBehavior

pub record MockPrinter : Type 0 where
  pub name : String
  pub connection : ConnectionType
  pub default : Bool
  pub online : Bool
  pub raw : Bool
  pub text : Bool
  pub behavior : SubmitBehavior
  pub language : Option String
  pub script : List ProviderJobState

abbrev pub new_printer : String → MockPrinter
new_printer name = record {
  name = name;
  connection = ConnectionType.local;
  default = false;
  online = true;
  raw = true;
  text = true;
  behavior = spool;
  language = none;
  script = ProviderJobState.pending ∷ ProviderJobState.printing ∷ ProviderJobState.printed ∷ [];
}

pub record Submission (P : Type 0) : Type 0 where
  pub printer : String
  pub job_id : ℕ
  pub document_name : Message
  pub copies : ℕ
  pub payload : PrintPayload P
  pub spooler_job_id : Option ℕ

pub record SpooledJob : Type 0 where
  pub printer : String
  pub document_name : Message
  pub remaining : List ProviderJobState
  pub last : ProviderJobState

pub record State (P : Type 0) : Type 0 where
  pub printers : List MockPrinter
  pub next_spooler_id : ℕ
  pub jobs : Map SpooledJob
  pub submissions : List (Submission P)
  pub cancelled : List ℕ
  pub discovery_error : Option PrintError
  pub record_limit : ℕ

abbrev usize_max : ℕ
usize_max = 18446744073709551615

abbrev pub is_final : ProviderJobState → Bool
is_final ProviderJobState.printed = true
is_final ProviderJobState.gone = true
is_final ProviderJobState.cancelled = true
is_final (ProviderJobState.failed e) = true
is_final _ = false

-- The last state of a script, and those before it.
unfoldable pub last_of : List ProviderJobState → ProviderJobState
last_of [] = ProviderJobState.gone
last_of (x ∷ []) = x
last_of (x ∷ y ∷ rest) = last_of (y ∷ rest)

unfoldable pub init_of : List ProviderJobState → List ProviderJobState
init_of [] = []
init_of (x ∷ []) = []
init_of (x ∷ y ∷ rest) = x ∷ init_of (y ∷ rest)

unfoldable pub find_mock : List MockPrinter → Printer → Result MockPrinter
unfolding printer_not_found_error with_printer
find_mock printers p =
    ok_or (find (λ (m : MockPrinter). str_eq m.name p.name) printers)
      (with_printer (printer_not_found_error p.name) p.id)

-- `find` and a change of what it found.
unfoldable pub change_first :
    String → (MockPrinter → MockPrinter) → List MockPrinter → List MockPrinter
change_first name f [] = []
change_first name f (m ∷ ms) =
    let rest = change_first name f ms in if str_eq m.name name then f m ∷ ms else m ∷ rest

-- `Vec::remove(0)`, which panics on an empty list.
abbrev pub remove_first {ℓ} : {A : Type ℓ} → List A → Option (List A)
remove_first [] = none
remove_first (x ∷ xs) = some xs

abbrev pub then_push {ℓ} : {A : Type ℓ} → Option (List A) → A → Option (List A)
then_push none x = none
then_push (some xs) x = some (xs ++ x ∷ [])

-- The next answer of a job, and what is left of its script.
abbrev pub next_of : SpooledJob → ProviderJobState × SpooledJob
next_of j = elim j.remaining [ [] ↦ (j.last, j) | x ∷ rest ↦ (x, record j { remaining = rest }) ]

module _ {P : Type 0} where
  abbrev pub with_id : List MockPrinter → State P
  with_id printers = record {
    printers = printers;
    next_spooler_id = 1;
    jobs = [];
    submissions = [];
    cancelled = [];
    discovery_error = none;
    record_limit = usize_max;
  }

  abbrev pub with_record_limit : ℕ → State P → State P
  with_record_limit limit s = record s { record_limit = limit }

  abbrev pub add_printer : MockPrinter → State P → State P
  add_printer p s = record s { printers = s.printers ++ p ∷ [] }

  abbrev pub remove_printer : String → State P → State P
  remove_printer name s = record s {
    printers = keep (λ (m : MockPrinter). not (str_eq m.name name)) s.printers;
  }

  unfoldable pub set_online : String → Bool → State P → State P
  unfolding change_first
  set_online name online s = record s {
    printers = change_first name (λ m. record m { online = online }) s.printers;
  }

  unfoldable pub set_behavior : String → SubmitBehavior → State P → State P
  unfolding change_first
  set_behavior name behavior s = record s {
    printers = change_first name (λ m. record m { behavior = behavior }) s.printers;
  }

  abbrev pub set_discovery_error : Option PrintError → State P → State P
  set_discovery_error error s = record s { discovery_error = error }

  unfoldable pub set_job_state : ℕ → ProviderJobState → State P → State P
  set_job_state id state s = elim (lookup id s.jobs) [
    | none ↦ s
    | some j ↦ record s { jobs = insert id (record j { remaining = []; last = state }) s.jobs }
  ]

  -- The oldest record is dropped first.
  unfoldable pub keep_record : ℕ → List (Submission P) → Submission P → Option (List (Submission P))
  keep_record limit submissions entry =
      if leb limit (length submissions)
      then then_push (remove_first submissions) entry
      else some (submissions ++ entry ∷ [])

  abbrev pub submission : Printer → SubmitSpec P → Option ℕ → Submission P
  submission p spec spooler_job_id = record {
    printer = p.name;
    job_id = spec.job_id;
    document_name = spec.document_name;
    copies = spec.copies;
    payload = spec.payload;
    spooler_job_id = spooler_job_id;
  }

  abbrev pub recorded :
      Option (List (Submission P))
      → State P
      → SubmitOutcome
      → Option (State P × Result SubmitOutcome)
  recorded none s outcome = none
  recorded (some submissions) s outcome = some (record s { submissions = submissions }, ok outcome)

  -- The entry that a script gives a job.
  abbrev pub spooled_job : Printer → SubmitSpec P → List ProviderJobState → SpooledJob
  unfolding init_of last_of
  spooled_job p spec script = record {
    printer = p.name;
    document_name = spec.document_name;
    remaining = init_of script;
    last = last_of script;
  }

  -- The counter wraps at 2^64; it is taken even if the printer is gone by now.
  unfoldable pub spool_found :
      Result MockPrinter
      → Printer
      → SubmitSpec P
      → State P
      → Option (State P × Result SubmitOutcome)
  unfolding keep_record spooled_job
  spool_found (err e) p spec s =
      some (record s { next_spooler_id = (s.next_spooler_id + 1) % 2 ^ 64 }, err e)
  spool_found (ok m) p spec s =
      let id = s.next_spooler_id in
      recorded (keep_record s.record_limit s.submissions (submission p spec (some id)))
        (record s {
          next_spooler_id = (id + 1) % 2 ^ 64;
          jobs = insert id (spooled_job p spec m.script) s.jobs;
        })
        (SubmitOutcome.spooled id)

  unfoldable pub spool_job :
      Printer → SubmitSpec P → State P → Option (State P × Result SubmitOutcome)
  unfolding find_mock spool_found
  spool_job p spec s = spool_found (find_mock s.printers p) p spec s

  unfoldable pub submit_as :
      SubmitBehavior → Printer → SubmitSpec P → State P → Option (State P × Result SubmitOutcome)
  unfolding spool_job keep_record
  submit_as (refuse_with e) p spec s = some (s, err e)
  submit_as deliver p spec s =
      recorded (keep_record s.record_limit s.submissions (submission p spec none)) s
        SubmitOutcome.delivered
  submit_as spool p spec s = spool_job p spec s
  submit_as (delay t) p spec s = spool_job p spec s

  -- `others` is what other calls do while this one does not hold the lock.
  unfoldable pub submit_mock :
      (State P → State P)
      → Printer
      → SubmitSpec P
      → State P
      → Option (State P × Result SubmitOutcome)
  unfolding submit_as find_mock Error.new with_printer
  submit_mock others p spec s = elim (find_mock s.printers p) [
    | err e ↦ some (s, err e)
    | ok m ↦
        if m.online
        then submit_as m.behavior p spec (others s)
        else some (
          s,
          err (with_printer (Error.new printer_offline (text "mock printer is offline" ∷ [])) p.id),
        )
  ]

  unfoldable pub job_state : ℕ → State P → State P × ProviderJobState
  unfolding lookup insert remove
  job_state id s = elim (lookup id s.jobs) [
    | none ↦ (s, ProviderJobState.gone)
    | some j ↦
        let (next, j') = next_of j in
        (record s { jobs = if is_final next then remove id s.jobs else insert id j' s.jobs }, next)
  ]

  unfoldable pub cancel_mock : ℕ → State P → State P × Result (Unit {0})
  unfolding lookup remove Error.new
  cancel_mock id s = elim (lookup id s.jobs) [
    | none ↦ (s, err (Error.new invalid_job_state (text "job is no longer in the spooler" ∷ [])))
    | some j ↦ (record s { jobs = remove id s.jobs; cancelled = s.cancelled ++ id ∷ [] }, ok tt)
  ]
