-- ===== src/Engine/Submit.antt =====
-- `PrintEngine::submit` and `enqueue` of print-core/src/engine/mod.rs: a request becomes a job, the
-- job is prepared and handed to its printer's queue, and any refusal ends the job.
pub mod Types
pub mod Checks
pub mod JobNames
pub mod Pools
pub mod Prepare
pub mod Laws
pub mod Ends
pub mod Accounts
pub mod Bytes
use kiln_print.Prelude.{
  ℕ, String, Bool, true, false, Option, none, some, List, [], ◌∷◌, ◌++◌, lookup, unwrap_or,
  if◌then◌else◌,
}
use kiln_print.Error
use kiln_print.Error.{
  PrintError, Result, ok, err, text, queue_full, unsupported_operation, with_printer, with_job,
  job_not_found_error,
}
use kiln_print.Job
use kiln_print.Job.{Job}
use kiln_print.Repository.{JobRepository}
use kiln_print.Budget.{ByteBudget, try_reserve, release}
use kiln_print.Queues.{PrinterQueues, sender_for}
use kiln_print.Engine.Types.{Inner, Mutated}
use kiln_print.Engine.Changes.{queue_change, fail_change}
use kiln_print.Engine.{track}
use Types.{EngineConfig, Submitter, PrintRequest, Prepared, Services, QueuedJob, Agent}
use Checks.{validate_idempotency_key}
use JobNames.{sanitise_job_name}
use Pools.{Awaits, shutting_down}
use Prepare.{change, prepare}

-- What `try_send` answers.
pub data Sent : Type 0 where
  accepted full shut : Sent

-- tokio's channels: whether one is closed, a new one of a capacity, and an attempt to send.
pub record Channels (S : Type 0) : Type 0 where
  pub is_closed : S → Bool
  pub channel : ℕ → S
  pub try_send : S → Sent

abbrev pub buffer_full : String → PrintError
buffer_full printer_id =
    with_printer (Error.new queue_full (text "the agent print buffer is full; retry later" ∷ []))
      printer_id

abbrev pub queue_is_full : String → String → PrintError
queue_is_full printer_id name =
    with_printer
      (Error.new queue_full
        (text "the queue for printer '" ∷ text name ∷ text "' is full; retry later" ∷ []))
      printer_id

-- The request's job, before anything is checked but its key. The clock reads `t`.
unfoldable pub new_job : {C : Type 0} → ℕ → ℕ → Submitter → PrintRequest C → Job
unfolding Job.new sanitise_job_name
new_job t id who request =
    record (Job.new t id who.client_id request.document.document_type request.copies
      request.document.size_bytes) {
        job_name = elim request.job_name [
          | none ↦ none
          | some name ↦ some (sanitise_job_name name)
        ];
        language = request.document.language;
        idempotency_key = request.idempotency_key;
      }

module _ {R S C P F : Type 0} (repository : JobRepository R) (channels : Channels S)
    (services : Services C P F) (config : EngineConfig) (who : Submitter) (request : PrintRequest C)
    (id : ℕ) (w : Awaits R S P) where
  -- A reservation that is dropped gives its bytes back.
  unfoldable pub drop_reservation : ℕ → Agent R S P → Agent R S P
  unfolding release
  drop_reservation size a = record a {
    budget = record a.budget { used = release a.budget.used size };
  }

  -- What becomes of the item: it is in the channel, or dropped with its reservation.
  unfoldable pub settle_item : Prepared P → Job → Sent → Agent R S P → Agent R S P × Result Job
  unfolding drop_reservation
  settle_item p j accepted a = (
    record a {
      handed =
          a.handed
          ++ record { job_id = p.job_id; printer = p.printer; spec = p.spec; reservation = p.size }
            ∷ [];
    },
    ok j,
  )
  settle_item p j full a =
      (drop_reservation p.size a, err (queue_is_full p.printer.id p.printer.name))
  settle_item p j shut a = (drop_reservation p.size a, err shutting_down)

  unfoldable pub send : Prepared P → Job → Agent R S P → Agent R S P × Result Job
  unfolding sender_for settle_item
  send p j a =
      let (sender, queues, spawned) =
        sender_for channels.is_closed channels.channel p.printer.id a.queues in
      settle_item p j (channels.try_send sender) (record a { queues = queues })

  -- Cancelled while validating: the stored job is reported.
  abbrev pub stored : ℕ → Result (Option Job) → Result Job
  stored job_id (err e) = err e
  stored job_id (ok none) = err (job_not_found_error job_id)
  stored job_id (ok (some j)) = ok j

  unfoldable pub queue_reserved : Prepared P → Agent R S P → Agent R S P × Result Job
  unfolding send change drop_reservation
  queue_reserved p a =
      let (a', queued) =
        change repository services config who request id w (queue_change w.t p.warnings p.language)
          a in
      elim queued [
        | none ↦
            (drop_reservation p.size a', stored p.job_id (repository.get a'.inner.repo p.job_id))
        | some m ↦ send p m.job (w.queueing a')
      ]

  unfoldable pub enqueue : Prepared P → Agent R S P → Agent R S P × Result Job
  unfolding queue_reserved try_reserve
  enqueue p a =
      let (budget, reserved) = try_reserve a.budget p.size in
      if reserved
      then queue_reserved p (record a { budget = budget })
      else (a, err (buffer_full p.printer.id))

  -- `result.map_err(…)`: a refusal fails the job, if it is still active.
  unfoldable pub refuse : Agent R S P × Result Job → Agent R S P × Result Job
  unfolding change
  refuse (a, ok j) = (a, ok j)
  refuse (a, err e) =
      let (a', m) = change repository services config who request id w (fail_change w.t e) a in
      elim m [ none ↦ (a', err (with_job e id)) | some m ↦ (a', err (unwrap_or m.job.error e)) ]

  unfoldable pub carry_out : Agent R S P × Result (Prepared P) → Agent R S P × Result Job
  unfolding enqueue refuse
  carry_out (a, ok p) = refuse (enqueue p a)
  carry_out (a, err e) = refuse (a, err e)

  unfoldable pub start : Agent R S P → Agent R S P × Result Job
  unfolding carry_out prepare new_job
  start a =
      let (s, tracked) = track repository (new_job w.t id who request) a.inner in
      let a' = record a { inner = s } in
      elim tracked [
        | err e ↦ (a', err e)
        | ok u ↦ carry_out (prepare repository services config who request id w a')
      ]

  -- Under the gate: a key that is known answers with its job.
  unfoldable pub gate : Option String → Agent R S P → Agent R S P × Result Job
  unfolding start
  gate none a = start a
  gate (some key) a = elim (repository.find_by_idempotency_key a.inner.repo who.client_id key) [
    | err e ↦ (a, err e)
    | ok found ↦ elim found [
      | none ↦ start a
      | some existing ↦ (a, ok (unwrap_or (lookup existing.job_id a.inner.active) existing))
    ]
  ]

  abbrev pub checked_key : Option String → Result (Unit {0})
  checked_key none = ok tt
  checked_key (some key) = validate_idempotency_key key

  unfoldable pub submit : Agent R S P → Agent R S P × Result Job
  unfolding gate
  submit a = elim (checked_key request.idempotency_key) [
    | err e ↦ (a, err e)
    | ok u ↦ gate request.idempotency_key a
  ]
