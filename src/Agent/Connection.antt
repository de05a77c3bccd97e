-- ===== src/Agent/Connection.antt =====
-- An open WebSocket connection: `run`, `handle_text`, `check_envelope`, `visible_event` and
-- `session` of agent/src/api/ws.rs. What happens to it is a list of inputs, in the order in which
-- the code takes them up. `L` is the state of the rate limiter, and whether the outbound queue has
-- room for an event is part of the input. The number of an event is not bounded, as 64 bits are.
pub mod Recents
pub mod Replay
pub mod Events
pub mod Session
use kiln_print.Prelude.{
  ℕ, ◌+◌, ◌-◌, ◌*◌, max, ◌⊎◌, inl, inr, String, Bool, true, false, not, ◌&&◌, ◌||◌, Option, none,
  some, List, [], ◌∷◌, ◌++◌, length, any, keep, ltb, ◌==◌, str_eq, if◌then◌else◌,
}
use kiln_print.Error
use kiln_print.Error.{
  PrintError, Result, ok, err, text, number, Message, invalid_payload_error, rate_limited,
  unsupported_protocol_version,
}
use kiln_print.Job.{Job}
use kiln_print.Printer.{Printer}
use kiln_print.Engine.Types.{EngineEvent, job_event, printer_event}
use kiln_print.Engine.Names.{name}
use kiln_print.Engine.Submit.Checks.{allows, byte_len}
use kiln_print.Agent.Security.{
  Principal, has, printer_scope, jobs_read, jobs_read_all, printers_read,
}
use kiln_print.Agent.Sessions.{SessionInfo, SessionRegistry, open_session, touch, close_session}
use kiln_print.Agent.Hello.{
  RequestEnvelope, Frame, text_frame, binary, ping, pong, close_frame, broken, Outgoing, response,
  event, close, ping_out, is_supported, close_policy, Json,
}

abbrev pub recent_request_ids : ℕ
recent_request_ids = 512

-- How the service's values are written as JSON; `none` is a failure to write one.
pub record Writer (V : Type 0) : Type 0 where
  pub job_value : Job → Option V
  pub printer_value : Printer → Option V
  pub missed_events : ℕ → V

pub record Limiter (L : Type 0) : Type 0 where
  pub check : L → String → L × Bool

pub record Config : Type 0 where
  pub handshake_timeout_secs : ℕ
  pub max_in_flight : ℕ
  pub heartbeat_secs : ℕ

abbrev pub contains : List String → String → Bool
contains ids id = any (λ x. str_eq x id) ids

-- `HashSet::remove`.
abbrev pub without : String → List String → List String
without id ids = keep (λ x. not (str_eq x id)) ids

-- The ids of the last requests, as a set and in their order.
pub record Recent : Type 0 where
  pub seen : List String
  pub order : List String

abbrev pub no_ids : Recent
no_ids = record { seen = []; order = [] }

-- The oldest id is dropped where there are too many.
unfoldable pub forget : List String → List String → Recent
forget seen [] = record { seen = seen; order = [] }
forget seen (old ∷ rest) =
    if ltb recent_request_ids (length (old ∷ rest))
    then record { seen = without old seen; order = rest }
    else record { seen = seen; order = old ∷ rest }

unfoldable pub remember : String → Recent → Recent
unfolding forget
remember id recent = forget (id ∷ recent.seen) (recent.order ++ id ∷ [])

-- The connection's state: `sent` is what went into the outbound queue, `spawned` the requests that
-- were handed to the service, both oldest first.
pub record Connection (V L : Type 0) : Type 0 where
  pub seq : ℕ
  pub recent : Recent
  pub permits : ℕ
  pub limiter : L
  pub last_seen : ℕ
  pub sessions : SessionRegistry
  pub sent : List (Outgoing V)
  pub spawned : List (RequestEnvelope V)

pub data Input (V : Type 0) : Type 0 where
  message : ℕ → Frame → Input V
  ended : Input V
  engine_event : Bool → EngineEvent → Input V
  lagged : Bool → ℕ → Input V
  events_closed : Input V
  tick : ℕ → Bool → Input V
  shutdown : Input V
  answered : String → Result V → Input V

unfoldable pub check_version : Option ℕ → Result (Unit {0})
unfolding Error.new
check_version none = ok tt
check_version (some v) =
    if not (is_supported v)
    then err (
        Error.new unsupported_protocol_version
          (text "protocol version " ∷ number v ∷ text " is not supported" ∷ []))
    else ok tt

abbrev is_other_kind : Option String → Bool
is_other_kind none = false
is_other_kind (some k) = not (str_eq k "request")

unfoldable pub check_envelope : {V : Type 0} → RequestEnvelope V → Result (Unit {0})
unfolding invalid_payload_error check_version
check_envelope request =
    if (byte_len request.id == 0) || ltb 128 (byte_len request.id)
    then err (invalid_payload_error (text "id must be 1-128 characters" ∷ []))
    else if is_other_kind request.kind
    then err (invalid_payload_error (text "type must be \"request\"" ∷ []))
    else check_version request.protocol_version

abbrev pub duplicate_id : PrintError
unfolding invalid_payload_error
duplicate_id = invalid_payload_error (text "duplicate request id" ∷ [])

abbrev pub too_many_requests : PrintError
unfolding Error.new
too_many_requests = Error.new rate_limited (text "too many requests; slow down" ∷ [])

abbrev pub too_many_at_once : PrintError
unfolding Error.new
too_many_at_once =
    Error.new rate_limited (text "too many concurrent requests on this connection" ∷ [])

abbrev pub binary_refused : PrintError
unfolding invalid_payload_error
binary_refused =
    invalid_payload_error (text "binary frames are not supported; send JSON text frames" ∷ [])

module _ {V L : Type 0} (json : Json V) (writer : Writer V) (limiter : Limiter L) (config : Config)
    (who : Principal) where
  abbrev pub respond : Option String → Result V → Connection V L → Connection V L
  respond id result c = record c { sent = c.sent ++ response id result ∷ [] }

  -- The permit that a request holds while the service works on it.
  unfoldable pub spawn : RequestEnvelope V → Connection V L → Connection V L
  spawn request c =
      if c.permits == 0
      then respond (some request.id) (err too_many_at_once) c
      else record c { permits = c.permits - 1; spawned = c.spawned ++ request ∷ [] }

  unfoldable pub rate : RequestEnvelope V → Connection V L → Connection V L
  unfolding spawn
  rate request c =
      let (next, allowed) = limiter.check c.limiter who.client_id in
      let c' : Connection V L = record c { limiter = next } in
      if not allowed then respond (some request.id) (err too_many_requests) c' else spawn request c'

  unfoldable pub accept : RequestEnvelope V → Connection V L → Connection V L
  unfolding rate remember
  accept request c =
      if contains c.recent.seen request.id
      then respond (some request.id) (err duplicate_id) c
      else rate request (record c { recent = remember request.id c.recent })

  unfoldable pub handle_text : String → Connection V L → Connection V L
  unfolding check_envelope accept invalid_payload_error
  handle_text t c = elim (json.request_of t) [
    | inl m ↦
        respond (json.id_of t) (err (invalid_payload_error (text "malformed message: " ∷ m))) c
    | inr request ↦ elim (check_envelope request) [
      | err e ↦ respond (some request.id) (err e) c
      | ok u ↦ accept request c
    ]
  ]

  unfoldable pub visible_event : EngineEvent → Option V
  visible_event (job_event kind job) =
      if has who jobs_read_all || (has who jobs_read && str_eq job.client_id who.client_id)
      then writer.job_value job
      else none
  visible_event (printer_event kind printer) =
      if has who printers_read && allows (printer_scope who) printer
      then writer.printer_value printer
      else none

  -- An event that the queue has no room for is dropped; its number is used all the same.
  unfoldable pub tell : Bool → String → V → Connection V L → Connection V L
  tell room event_name value c =
      let next = c.seq + 1 in
      if room
      then record c { seq = next; sent = c.sent ++ event event_name next value ∷ [] }
      else record c { seq = next }

  unfoldable pub show_event : Bool → EngineEvent → Connection V L → Connection V L
  unfolding visible_event tell name
  show_event room e c = elim (visible_event e) [
    | none ↦ c
    | some value ↦ tell room (name e) value c
  ]

  unfoldable pub take_message : Frame → Connection V L → Connection V L × Bool
  unfolding handle_text
  take_message (text_frame t) c = (handle_text t c, true)
  take_message binary c = (respond none (err binary_refused) c, true)
  take_message close_frame c = (c, false)
  take_message ping c = (c, true)
  take_message pong c = (c, true)
  take_message broken c = (c, false)

  abbrev pub seen_at : ℕ → ℕ → Connection V L → Connection V L
  unfolding touch
  seen_at session_id now c = record c {
    last_seen = now;
    sessions = touch now session_id c.sessions;
  }

  abbrev pub heartbeat : ℕ
  heartbeat = max config.heartbeat_secs 1

  -- One round of the loop; `false` ends it. Times are seconds.
  unfoldable pub step : ℕ → Input V → Connection V L → Connection V L × Bool
  unfolding take_message show_event tell touch
  step session_id (message now broken) c = (c, false)
  step session_id (message now frame) c = take_message frame (seen_at session_id now c)
  step session_id ended c = (c, false)
  step session_id (engine_event room e) c = (show_event room e c, true)
  step session_id (lagged room missed) c =
      (tell room "session.lagged" (writer.missed_events missed) c, true)
  step session_id events_closed c = (c, false)
  step session_id (tick now room) c =
      if ltb (heartbeat * 3) (now - c.last_seen)
      then (record c { sent = c.sent ++ close close_policy "heartbeat timeout" ∷ [] }, false)
      else if room
      then (record c { sent = c.sent ++ ping_out ∷ [] }, true)
      else (c, true)
  step session_id shutdown c =
      (record c { sent = c.sent ++ close 1001 "agent shutting down" ∷ [] }, false)
  step session_id (answered id result) c =
      (record (respond (some id) result c) { permits = c.permits + 1 }, true)

  unfoldable pub run : ℕ → List (Input V) → Connection V L → Connection V L
  unfolding step
  run session_id [] c = c
  run session_id (input ∷ inputs) c =
      let next = step session_id input c in
      let rest = run session_id inputs next.0 in if next.1 then rest else next.0

  -- The connection as `run` sets it up, at the time `now`.
  abbrev pub start : ℕ → L → SessionRegistry → List (Outgoing V) → Connection V L
  start now state sessions sent = record {
    seq = 0;
    recent = no_ids;
    permits = config.max_in_flight;
    limiter = state;
    last_seen = now;
    sessions = sessions;
    sent = sent;
    spawned = [];
  }
