-- ===== src/Agent/Service.antt =====
-- agent/src/api/service.rs: the operations that both transports call, with their checks. The engine
-- is an interface: `S` is its state, `Q` the type of a print request.
pub mod Laws
use kiln_print.Prelude.{
  ℕ, String, Bool, true, false, not, ◌&&◌, ◌||◌, Option, none, some, List, [], ◌∷◌, any, keep, map,
  unwrap_or, str_eq, if◌then◌else◌,
}
use kiln_print.Error.{PrintError, Result, ok, err, printer_not_found_error, job_not_found_error}
use kiln_print.Error
use kiln_print.Job.{Job}
use kiln_print.Printer.{Printer, PrinterCapabilities}
use kiln_print.Repository.{JobFilter}
use kiln_print.Engine.Queue.{QueueEntry, PrinterQueueSnapshot, QueueSummary}
use kiln_print.Engine.Submit.Types.{PrinterSelector, by_id, by_name, Submitter}
use kiln_print.Engine.Submit.Checks.{allows}
use kiln_print.Agent.Security.{
  Principal, has, require, printer_scope, submitter, printers_read, print, jobs_read, jobs_read_all,
  jobs_cancel, jobs_cancel_all, queue_read,
}
use kiln_print.Agent.Task.{Task, pure, fail, lift, ◌>>=◌}
use kiln_print.Agent.Wire.{JobsListParams, parse_statuses}

-- What the service calls of `PrintEngine`.
pub record PrintEngine (S Q : Type 0) : Type 0 where
  pub printers : Task S (List Printer)
  pub resolve_printer : PrinterSelector → Task S Printer
  pub default_printer : Task S (Option Printer)
  pub capabilities : String → Task S PrinterCapabilities
  pub submit : Submitter → Q → Task S Job
  pub job : S → ℕ → Result Job
  pub jobs : S → JobFilter → Result (List Job)
  pub cancel : ℕ → Task S Job
  pub queue_summary : Task S (List QueueSummary)
  pub queue : String → Task S PrinterQueueSnapshot

unfoldable pub can_see : Principal → Job → Bool
can_see who j = has who jobs_read_all || (has who jobs_read && str_eq j.client_id who.client_id)

abbrev pub own : Principal → Job → Bool
own who j = str_eq j.client_id who.client_id

abbrev is_own : Principal → Option Job → Bool
is_own who none = false
is_own who (some j) = own who j

-- Of an entry that is not the caller's, only that it exists.
unfoldable pub redact : Principal → QueueEntry → QueueEntry
redact who e =
    if is_own who e.kiln_job
    then e
    else record e { document_name = none; status_text = none; kiln_job = none }

unfoldable pub redact_snapshot : Principal → PrinterQueueSnapshot → PrinterQueueSnapshot
unfolding redact
redact_snapshot who q = if has who jobs_read_all then q else record q {
  agent_queue = keep (own who) q.agent_queue;
  spooler_queue = map (redact who) q.spooler_queue;
}

-- `Result::ok`.
abbrev pub to_option {ℓ} : {A : Type ℓ} → Result A → Option A
to_option (ok a) = some a
to_option (err e) = none

-- `Option::filter`.
abbrev pub filter_option {ℓ} : {A : Type ℓ} → (A → Bool) → Option A → Option A
filter_option p none = none
filter_option p (some a) = if p a then some a else none

abbrev pub not_found : PrinterSelector → PrintError
not_found (by_id id) = printer_not_found_error id
not_found (by_name name) = printer_not_found_error name

abbrev pub visible : Principal → Printer → Bool
visible who p = allows (printer_scope who) p

unfoldable pub may_cancel : Principal → Job → Result (Unit {0})
may_cancel who j =
    if own who j
    then if not (has who jobs_cancel) then require who jobs_cancel_all else ok tt
    else require who jobs_cancel_all

unfoldable pub may_list : Principal → Result (Unit {0})
may_list who =
    if not (has who jobs_read) && not (has who jobs_read_all) then require who jobs_read else ok tt

unfoldable pub jobs_filter : Principal → JobsListParams → Result JobFilter
unfolding parse_statuses
jobs_filter who params = Error.◌>>=◌ (parse_statuses params.status) (λ statuses. ok (record {
  client_id = if has who jobs_read_all then params.client_id else some who.client_id;
  printer_id = params.printer_id;
  statuses = statuses;
  since = params.since;
  until = params.until;
  limit = unwrap_or params.limit 100;
  offset = unwrap_or params.offset 0;
}))

module _ {S Q : Type 0} (engine : PrintEngine S Q) where
  unfoldable pub list_printers : Principal → Task S (List Printer)
  list_printers who = do
    allowed ← lift (require who printers_read)
    ps ← engine.printers
    pure (keep (visible who) ps)

  unfoldable pub visible_printer : Principal → PrinterSelector → Task S Printer
  visible_printer who selector = do
    p ← engine.resolve_printer selector
    if visible who p then pure p else fail (not_found selector)

  unfoldable pub get_printer : Principal → PrinterSelector → Task S Printer
  unfolding visible_printer
  get_printer who selector = do
    allowed ← lift (require who printers_read)
    p ← visible_printer who selector
    λ s.
        let (s', answer) = engine.capabilities p.id s in
        (s', ok (record p { capabilities = to_option answer }))

  unfoldable pub default_printer : Principal → Task S (Option Printer)
  default_printer who = do
    allowed ← lift (require who printers_read)
    found ← engine.default_printer
    pure (filter_option (visible who) found)

  unfoldable pub capabilities : Principal → PrinterSelector → Task S PrinterCapabilities
  unfolding visible_printer
  capabilities who selector = do
    allowed ← lift (require who printers_read)
    p ← visible_printer who selector
    engine.capabilities p.id

  unfoldable pub submit : Principal → Q → Task S Job
  submit who request = do allowed ← lift (require who print); engine.submit (submitter who) request

  -- `fetch` resolves the document's source, and `complete` builds the request.
  unfoldable pub submit_pending :
      {D P : Type 0} → (P → Task S D) → (P → D → Q) → Principal → P → Task S Job
  unfolding submit
  submit_pending fetch complete who pending = do
    allowed ← lift (require who print)
    content ← fetch pending
    submit who (complete pending content)

  unfoldable pub list_jobs : Principal → JobsListParams → S → Result (List Job)
  unfolding jobs_filter may_list
  list_jobs who params s =
      Error.◌>>=◌ (may_list who)
        (λ allowed. Error.◌>>=◌ (jobs_filter who params) (λ filter. engine.jobs s filter))

  unfoldable pub get_job : Principal → ℕ → S → Result Job
  unfolding can_see
  get_job who id s = elim (engine.job s id) [
    | ok j ↦ if can_see who j then ok j else err (job_not_found_error id)
    | err e ↦ err (job_not_found_error id)
  ]

  unfoldable pub cancel_job : Principal → ℕ → Task S Job
  unfolding get_job may_cancel
  cancel_job who id = do
    j ← λ s. lift (get_job who id s) s
    allowed ← lift (may_cancel who j)
    engine.cancel id

  unfoldable pub list_printers_unchecked : Principal → Task S (List String)
  list_printers_unchecked who = do
    ps ← engine.printers
    pure (map (λ (p : Printer). p.id) (keep (visible who) ps))

  unfoldable pub queue_summary : Principal → Task S (List QueueSummary)
  unfolding list_printers_unchecked
  queue_summary who = do
    allowed ← lift (require who queue_read)
    ids ← list_printers_unchecked who
    summaries ← engine.queue_summary
    pure (keep (λ (q : QueueSummary). any (λ id. str_eq id q.printer_id) ids) summaries)

  unfoldable pub queue : Principal → PrinterSelector → Task S PrinterQueueSnapshot
  unfolding visible_printer redact_snapshot
  queue who selector = do
    allowed ← lift (require who queue_read)
    p ← visible_printer who selector
    snapshot ← engine.queue p.id
    pure (redact_snapshot who snapshot)
