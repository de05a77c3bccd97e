-- ===== src/Agent/Hello.antt =====
-- How a WebSocket connection begins: `upgrade`, `handshake` and `authenticate` of
-- agent/src/api/ws.rs, with the envelopes of agent/src/api/wire.rs. `V` is the type of JSON values;
-- reading JSON is a library's.
pub mod Laws
use kiln_print.Prelude.{
  ℕ, ◌+◌, ◌-◌, max, ◌⊎◌, inl, inr, String, Bool, true, false, not, Option, none, some, List, [],
  ◌∷◌, any, keep, ◌==◌, str_eq, if◌then◌else◌,
}
use kiln_print.Error
use kiln_print.Error.{
  PrintError, Result, ok, err, ok_or, text, numbers, Message, invalid_payload_error, with_details,
  authentication_required, unsupported_protocol_version, ◌>>=◌,
}
use kiln_print.Error.Names.{as_str}
use kiln_print.Engine.Submit.JobNames.{take_chars}
use kiln_print.Agent.Security.{Principal}
use kiln_print.Agent.Origin.{Headers, Peer, Rejected, forbidden, ConnectionInfo, check}
use kiln_print.Agent.Token
use kiln_print.Agent.Token.{Entry, origin_known}
use kiln_print.Agent.Sessions.{SessionInfo}

pub record RequestEnvelope (V : Type 0) : Type 0 where
  pub protocol_version : Option ℕ
  pub kind : Option String
  pub id : String
  pub method : String
  pub params : V

pub record ClientInfo : Type 0 where
  pub name : String
  pub version : Option String

pub data AuthParams : Type 0 where
  token : String → AuthParams

pub record HelloParams : Type 0 where
  pub protocol_versions : List ℕ
  pub client : ClientInfo
  pub auth : AuthParams

-- What a successful `session.hello` is answered with.
pub record Limits : Type 0 where
  pub max_document_bytes : ℕ
  pub max_message_bytes : ℕ
  pub max_copies : ℕ

pub record Welcome : Type 0 where
  pub protocol_version : ℕ
  pub session_id : ℕ
  pub client : Principal
  pub limits : Limits
  pub document_types : List String
  pub languages : List String
  pub heartbeat_seconds : ℕ

-- What arrives from a peer, and what is put in the connection's outbound queue.
pub data Frame : Type 0 where
  text_frame : String → Frame
  binary ping pong close_frame broken : Frame

pub data Outgoing (V : Type 0) : Type 0 where
  response : Option String → Result V → Outgoing V
  event : String → ℕ → V → Outgoing V
  close : ℕ → String → Outgoing V
  ping_out : Outgoing V

abbrev pub supported_versions : List ℕ
supported_versions = 1 ∷ []

abbrev pub is_supported : ℕ → Bool
is_supported v = any (λ s. s == v) supported_versions

abbrev pub close_policy : ℕ
close_policy = 1008

-- `Iterator::max`.
abbrev pub larger : ℕ → Option ℕ → Option ℕ
larger v none = some v
larger v (some w) = some (max v w)

unfoldable pub maximum : List ℕ → Option ℕ
maximum [] = none
maximum (v ∷ vs) = larger v (maximum vs)

-- `Option::map`.
abbrev shortened : Option String → Option String
unfolding take_chars
shortened none = none
shortened (some v) = some (take_chars 50 v)

-- `parse_params`; a missing value counts as an empty object.
unfoldable pub parse_params : {V T : Type 0} → (V → Bool) → V → (V → Message ⊎ T) → V → Result T
unfolding invalid_payload_error
parse_params is_null empty_object from_value params =
    elim (from_value (if is_null params then empty_object else params)) [
      | inl m ↦ err (invalid_payload_error (text "invalid params: " ∷ m))
      | inr t ↦ ok t
    ]

-- What `serde_json` answers.
pub record Json (V : Type 0) : Type 0 where
  pub request_of : String → Message ⊎ RequestEnvelope V
  pub id_of : String → Option String
  pub is_null : V → Bool
  pub empty_object : V
  pub hello_of : V → Message ⊎ HelloParams
  pub welcome : Welcome → V

-- `upgrade`, down to the answer of the HTTP request. `slots` are the connections still free.
pub data Upgraded : Type 0 where
  refused : ℕ → String → Upgraded
  accepted : ConnectionInfo → Upgraded

module _ {H : Type 0} (hash_token : String → H) (ct_eq : H → H → Bool) (decode : String → Option H)
    (entries : List (Entry H)) where
  abbrev pub known_origin : Option String → Bool
  known_origin none = true
  known_origin (some o) = origin_known hash_token ct_eq decode entries o

  unfoldable pub upgrade : Bool → Peer → Headers → ℕ → ℕ × Upgraded
  unfolding check origin_known
  upgrade allow_non_loopback peer headers slots = elim (check allow_non_loopback peer headers) [
    | inl (forbidden reason) ↦ (slots, refused 403 reason)
    | inr connection ↦
        if not (known_origin connection.origin)
        then (slots, refused 403 "origin not allowed")
        else if slots == 0
        then (slots, refused 503 "too many connections")
        else (slots - 1, accepted connection)
  ]

abbrev pub hello_first : PrintError
unfolding Error.new
hello_first =
    Error.new authentication_required (text "the first message must be session.hello" ∷ [])

abbrev pub no_version : PrintError
unfolding Error.new with_details
no_version =
    with_details
      (Error.new unsupported_protocol_version (text "no mutually supported protocol version" ∷ []))
      (("supported", numbers supported_versions) ∷ [])

-- The clock's reading, and the id that is drawn for the session.
pub record Fresh : Type 0 where
  pub now : ℕ
  pub session_id : ℕ

pub record Agent : Type 0 where
  pub limits : Limits
  pub document_types : List String
  pub languages : List String
  pub heartbeat_secs : ℕ

abbrev pub session_info : Fresh → HelloParams → ConnectionInfo → ℕ → Principal → SessionInfo
unfolding take_chars
session_info fresh hello connection version who = record {
  session_id = fresh.session_id;
  client_id = who.client_id;
  client_name = who.name;
  reported_name = take_chars 100 hello.client.name;
  reported_version = shortened hello.client.version;
  origin = who.origin;
  user_agent = connection.user_agent;
  protocol_version = version;
  connected_at = fresh.now;
  last_activity = fresh.now;
}

abbrev pub token_of : AuthParams → String
token_of (token t) = t

module _ {H V : Type 0} (hash_token : String → H) (ct_eq : H → H → Bool)
    (decode : String → Option H) (entries : List (Entry H)) (json : Json V) (agent : Agent)
    (fresh : Fresh) (connection : ConnectionInfo) where
  abbrev welcome_of : ℕ → Principal → Welcome
  welcome_of version who = record {
    protocol_version = version;
    session_id = fresh.session_id;
    client = who;
    limits = agent.limits;
    document_types = agent.document_types;
    languages = agent.languages;
    heartbeat_seconds = agent.heartbeat_secs;
  }

  abbrev pub open_as : HelloParams → ℕ → Principal → Result (Principal × SessionInfo × V)
  unfolding take_chars
  open_as hello version who =
      ok (
        who,
        session_info fresh hello connection version who,
        json.welcome (welcome_of version who),
      )

  unfoldable pub with_version : HelloParams → ℕ → Result (Principal × SessionInfo × V)
  unfolding Token.authenticate take_chars
  with_version hello version = do
    who ← Token.authenticate hash_token ct_eq decode entries (token_of hello.auth) connection
    open_as hello version who

  unfoldable pub with_hello : HelloParams → Result (Principal × SessionInfo × V)
  unfolding with_version maximum
  with_hello hello = do
    version ← ok_or (maximum (keep is_supported hello.protocol_versions)) no_version
    with_version hello version

  unfoldable pub authenticate : RequestEnvelope V → Result (Principal × SessionInfo × V)
  unfolding parse_params with_hello
  authenticate request = if not (str_eq request.method "session.hello") then err hello_first else do
    hello ← parse_params json.is_null json.empty_object json.hello_of request.params
    with_hello hello

  -- What is sent, and who was let in.
  abbrev pub Greeted : Type 0
  Greeted = List (Outgoing V) × Option (Principal × SessionInfo)

  unfoldable pub answer_hello : RequestEnvelope V → Greeted
  unfolding authenticate as_str
  answer_hello request = elim (authenticate request) [
    | ok (who, info, result) ↦ (response (some request.id) (ok result) ∷ [], some (who, info))
    | err e ↦
        (response (some request.id) (err e) ∷ close close_policy (as_str e.error_code) ∷ [], none)
  ]

  unfoldable pub greet : String → Greeted
  unfolding answer_hello invalid_payload_error
  greet t = elim (json.request_of t) [
    | inl m ↦ (
      response none (err (invalid_payload_error (text "malformed message: " ∷ m)))
          ∷ close close_policy "malformed hello"
          ∷ [],
      none,
    )
    | inr request ↦ answer_hello request
  ]

  -- The frames up to the first text; the stream may end before one.
  unfoldable pub handshake : List Frame → Greeted
  unfolding greet
  handshake [] = ([], none)
  handshake (text_frame t ∷ frames) = greet t
  handshake (ping ∷ frames) = handshake frames
  handshake (pong ∷ frames) = handshake frames
  handshake (binary ∷ frames) = ([], none)
  handshake (close_frame ∷ frames) = ([], none)
  handshake (broken ∷ frames) = ([], none)
