-- ===== src/Examples/Agent.antt =====
-- The agent at concrete callers, tokens and requests (agent/src).
use kiln_print.Prelude.{
  ℕ, ◌≡◌, ◌≢◌, ◌↔◌, ◌⊎◌, refl, subst, arith, String, true, none, some, List, [], ◌∷◌, All, Map,
  lookup, remove, str_eq, eq_iff,
}
use kiln_print.Error.{PrintError, ok, err, internal, job_not_found_error}
use kiln_print.Job.{Job}
use kiln_print.Printer.{Printer}
use kiln_print.Repository.{matches, list_memory, in_memory}
use kiln_print.Repository.Listing.{list_memory_lem}
use kiln_print.Engine.Types.{Inner}
use kiln_print.Engine
use kiln_print.Engine.Queue.{PrinterQueueSnapshot, snapshot}
use kiln_print.Engine.Discovery.Resolve.{unknown}
use kiln_print.Engine.Submit.Types.{by_id, by_name}
use kiln_print.Agent.Security.{
  Principal, client, jobs_read, jobs_cancel, queue_read, has, require, printer_scope,
}
use kiln_print.Agent.Origin.{Headers, Peer, ConnectionInfo, check, normalise_origin}
use kiln_print.Agent.Origin.Laws.{IsLoopback, IsWeb, check_lem}
use kiln_print.Agent.Token.{SecurityConfig, Entry, new, authenticate}
use kiln_print.Agent.Token.Trust.{Granted, authenticate-Granted}
use kiln_print.Agent.Wire.{JobsListParams, any_status}
use kiln_print.Agent.Service.{
  PrintEngine, can_see, visible, visible_printer, list_printers, get_printer, default_printer,
  list_jobs, get_job, cancel_job, queue,
}
use kiln_print.Agent.Service.Laws.{
  IsFiltered, MayCancel, list_jobs-own, get_job_lem, cancel_job_lem,
}
use kiln_print.Agent.Service.Laws.Queues.{
  ShowsOwn, queue_lem, printers-visible, visible_printer-hidden,
}
use kiln_print.Examples.Data.{queued_job}
use kiln_print.Examples.Submit.{zebra}

-- An engine with one printer, which takes no new job and lets go of what is cancelled.
abbrev engine : PrintEngine (Inner (Map Job)) ℕ
engine = record {
  printers = λ s. (s, ok (zebra ∷ []));
  resolve_printer = λ selector s. (s, ok zebra);
  default_printer = λ s. (s, ok (some zebra));
  capabilities = λ id s. (s, err internal);
  submit = λ who request s. (s, err internal);
  job = λ s id. Engine.job in_memory id s;
  jobs = λ s f. in_memory.list s.repo f;
  cancel = λ id s. (record s { active = remove id s.active }, Engine.job in_memory id s);
  queue_summary = λ s. (s, ok []);
  queue = λ id s. (s, ok (snapshot zebra [] s));
}

ok_injective : {A : Type 0} (a b : A) → ok a ≡ ok b → a ≡ b
ok_injective a b h = ground (arith, h)

engine-IsFiltered : IsFiltered engine
engine-IsFiltered s f js h =
    subst (λ r. All (λ j. matches f j ≡ true) r) (ok_injective (list_memory s.repo f) js h)
      (list_memory_lem s.repo f).1

abbrev pub lab : Principal
lab = record {
  client_id = "lab-app";
  name = "Lab";
  kind = client;
  permissions = jobs_read ∷ jobs_cancel ∷ queue_read ∷ [];
  printers = "Mock Zebra" ∷ [];
  origin = none;
}

abbrev other : Principal
other = record lab { client_id = "other"; printers = "Office" ∷ [] }

abbrev everything : JobsListParams
everything = record {
  status = any_status;
  printer_id = none;
  client_id = none;
  since = none;
  until = none;
  limit = none;
  offset = none;
}

-- The other client's job in the store, and in the agent's queue.
abbrev other_job : Job
other_job = record queued_job { job_id = 8; client_id = "other" }

abbrev shared : Inner (Map Job)
shared = record {
  repo = (8, other_job) ∷ (7, queued_job) ∷ [];
  active = (8, other_job) ∷ (7, queued_job) ∷ [];
  events = [];
  cancelling = [];
}

list_jobs-own_example : All (λ (j : Job). j.client_id ≡ "lab-app") (queued_job ∷ [])
unfolding has list_jobs list_memory
list_jobs-own_example =
    list_jobs-own engine lab everything shared (queued_job ∷ []) engine-IsFiltered refl refl

get_job_lem_example :
    ((j : Job)
      → (get_job engine lab 8 shared ≡ ok j)
        ↔ ((engine.job shared 8 ≡ ok j) × (can_see lab j ≡ true)))
    × ((e : PrintError) → get_job engine lab 8 shared ≡ err e → e ≡ job_not_found_error 8)
get_job_lem_example = get_job_lem engine lab 8 shared

cancel_job_lem_example :
    (((cancel_job engine lab 7 shared).0 ≡ shared)
      × ((e : PrintError) × ((cancel_job engine lab 7 shared).1 ≡ err e)))
    ⊎ ((j : Job) × (engine.job shared 7 ≡ ok j)
        × MayCancel lab j
        × (cancel_job engine lab 7 shared ≡ engine.cancel 7 shared))
cancel_job_lem_example = cancel_job_lem engine lab 7 shared

cancelled : (cancel_job engine lab 7 shared).0.active ≡ (8, other_job) ∷ []
unfolding cancel_job Engine.job lookup has remove
cancelled = refl

not_theirs : (cancel_job engine lab 8 shared).1 ≡ err (job_not_found_error 8)
unfolding cancel_job Engine.job lookup has
not_theirs = refl

printers-visible_example :
    ((ps : List Printer)
      → (list_printers engine lab shared).1 ≡ ok ps
      → All (λ p. visible lab p ≡ true) ps)
    × ((p : Printer)
        → (get_printer engine lab (by_id "mock-1") shared).1 ≡ ok p
        → visible lab p ≡ true)
    × ((p : Printer) → (default_printer engine lab shared).1 ≡ ok (some p) → visible lab p ≡ true)
printers-visible_example = printers-visible engine lab (by_id "mock-1") shared

abbrev shown : PrinterQueueSnapshot
shown = record {
  printer_id = "mock-1";
  printer_name = "Mock Zebra";
  agent_queue = queued_job ∷ [];
  spooler_queue = [];
}

queue_lem_example :
    (p : Printer) × (s' : Inner (Map Job)) × (whole : PrinterQueueSnapshot) × (visible lab p ≡ true)
    × ((engine.queue p.id s').1 ≡ ok whole)
    × ShowsOwn lab shown whole
unfolding has queue require printer_scope snapshot
queue_lem_example = queue_lem engine lab (by_id "mock-1") shared shown refl refl

visible_printer-hidden_example :
    ((name : String)
      → by_id "mock-1" ≡ by_name name
      → (visible_printer engine other (by_id "mock-1") shared).1 ≡ err (unknown (by_name name)))
    × ((id : String)
        → by_id "mock-1" ≡ by_id id
        → (visible_printer engine other (by_id "mock-1") shared).1 ≢ err (unknown (by_id id)))
unfolding printer_scope
visible_printer-hidden_example =
    visible_printer-hidden engine other (by_id "mock-1") shared zebra refl refl

-- Hashes as the texts themselves.
abbrev security : SecurityConfig
security = record {
  admin_origins = [];
  clients =
      record {
        id = "lab-app";
        name = "Lab";
        token_sha256 = "secret";
        origins = "https://Lab.Example.com:443/" ∷ [];
        permissions = jobs_read ∷ jobs_cancel ∷ queue_read ∷ [];
        printers = "Mock Zebra" ∷ [];
      }
      ∷ [];
}

abbrev pub registered : Entry String
registered = record { hash = "secret"; principal = lab; origins = "https://lab.example.com" ∷ [] }

abbrev pub browser : ConnectionInfo
browser = record {
  peer = record { address = "127.0.0.1"; is_loopback = true };
  origin = some "https://lab.example.com";
  user_agent = none;
}

authenticate-Granted_example :
    Granted
      (λ t. t)
      str_eq
      some
      none
      security
      "secret"
      (some "https://lab.example.com")
      (record lab { origin = some "https://lab.example.com" })
unfolding new authenticate normalise_origin
authenticate-Granted_example =
    authenticate-Granted (λ t. t) str_eq some none security (registered ∷ []) "secret" browser
      (record lab { origin = some "https://lab.example.com" }) (λ a b. (eq_iff a b).0) refl refl

abbrev headers : Headers
headers = record {
  host = some "localhost:18731";
  origin = some (some "HTTPS://App.Example");
  user_agent = none;
}

abbrev local : Peer
local = record { address = "127.0.0.1"; is_loopback = true }

abbrev accepted : ConnectionInfo
accepted = record { peer = local; origin = some "https://app.example"; user_agent = none }

check_lem_example :
    (local.is_loopback ≡ true)
    × IsLoopback "localhost:18731"
    × ((headers.origin ≡ none) ⊎ ((o : String) × (accepted.origin ≡ some o) × IsWeb o))
unfolding check
check_lem_example = check_lem local headers accepted refl

normalised : normalise_origin "https://Lab.Example.com:443/" ≡ some "https://lab.example.com"
unfolding normalise_origin
normalised = refl

loopback_literal : normalise_origin "http://[::1]:8080" ≡ some "http://[::1]:8080"
unfolding normalise_origin
loopback_literal = refl

bad_port : normalise_origin "https://a.com:99999" ≡ none
unfolding normalise_origin
bad_port = refl

opaque : normalise_origin "null" ≡ none
unfolding normalise_origin
opaque = refl
