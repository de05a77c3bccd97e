-- ===== src/Agent/Connection/Session.antt =====
-- A WebSocket connection from its first frame to its end: `session` of agent/src/api/ws.rs.
use kiln_print.Prelude.{
  ℕ, ◌≡◌, refl, sym, subst, ap, ◌∙◌, ◌⊎◌, inl, inr, String, Bool, true, false, Option, none, some,
  List, [], ◌∷◌, arith, lookup, ==_iff, lookup-insert, lookup-remove, ◌==◌, if◌then◌else◌,
  Bool-cases, Option-cases, sum-cases,
}
use kiln_print.Error.{Result-cases}
use kiln_print.Engine.Submit.JobNames.{take_chars}
use kiln_print.Agent.Security.{Principal}
use kiln_print.Agent.Origin.{ConnectionInfo}
use kiln_print.Agent.Token.{Entry}
use kiln_print.Agent.Sessions.{SessionInfo, SessionRegistry, open_session, touch, close_session}
use kiln_print.Agent.Hello.{
  RequestEnvelope, Frame, text_frame, binary, ping, pong, close_frame, broken, Outgoing, close,
  close_policy, Json, Fresh, Agent, handshake,
}
use kiln_print.Agent.Hello.Laws.{Opened, handshake-Opened}
use kiln_print.Agent.Connection.{
  no_ids, Connection, Input, message, ended, engine_event, lagged, events_closed, tick, shutdown,
  answered, Writer, Limiter, Config, check_envelope, spawn, rate, accept, handle_text, tell,
  show_event, take_message, seen_at, step, run, start,
}
use kiln_print.Agent.Connection.Replay.{run-cases}

module _ {H V L : Type 0} (hash_token : String → H) (ct_eq : H → H → Bool)
    (decode : String → Option H) (entries : List (Entry H)) (json : Json V) (agent : Agent)
    (fresh : Fresh) (connection : ConnectionInfo) (writer : Writer V) (limiter : Limiter L)
    (config : Config) where
  -- A connection that ends before anyone was let in.
  abbrev turned_away : L → SessionRegistry → List (Outgoing V) → Connection V L
  turned_away state sessions sent = record {
    seq = 0;
    recent = no_ids;
    permits = config.max_in_flight;
    limiter = state;
    last_seen = fresh.now;
    sessions = sessions;
    sent = sent;
    spawned = [];
  }

  unfoldable pub serve :
      List (Input V)
      → L
      → SessionRegistry
      → List (Outgoing V)
      → Principal
      → SessionInfo
      → Connection V L
  unfolding open_session close_session run
  serve inputs state sessions sent who info =
      let c =
        run json writer limiter config who info.session_id inputs (
          start json writer limiter config who fresh.now state (open_session info sessions) sent) in
      record c { sessions = (close_session info.session_id c.sessions).0 }

  -- `late`: the time for the handshake ran out, before it sent anything.
  unfoldable pub session : Bool → List Frame → List (Input V) → L → SessionRegistry → Connection V L
  unfolding handshake serve
  session late frames inputs state sessions =
      let greeted = handshake hash_token ct_eq decode entries json agent fresh connection frames in
      if late
      then turned_away state sessions (close close_policy "authentication timeout" ∷ [])
      else elim greeted.1 [
        | none ↦ turned_away state sessions greeted.0
        | some (who, info) ↦ serve inputs state sessions greeted.0 who info
      ]

module _ {V L : Type 0} (json : Json V) (writer : Writer V) (limiter : Limiter L) (config : Config)
    (who : Principal) where
  accept-sessions :
      (request : RequestEnvelope V) (c : Connection V L)
      → (accept json writer limiter config who request c).sessions ≡ c.sessions
  unfolding accept rate spawn
  accept-sessions request c = ground arith

  handle_text-sessions :
      (t : String) (c : Connection V L)
      → (handle_text json writer limiter config who t c).sessions ≡ c.sessions
  unfolding handle_text
  handle_text-sessions t c = elim (sum-cases (json.request_of t)) [
    | inl (m, f) ↦ rw (f, handle_text) refl
    | inr (request, f) ↦ elim (Result-cases (check_envelope request)) [
      | inl (u, e) ↦ rw (f, e, handle_text) (accept-sessions request c)
      | inr (x, e) ↦ rw (f, e, handle_text) refl
    ]
  ]

  -- The clock of one session stands in that session's entry only.
  touch-other :
      (now id j : ℕ) (sessions : SessionRegistry)
      → (id == j) ≡ false
      → lookup j (touch now id sessions) ≡ lookup j sessions
  unfolding touch
  touch-other now id j sessions f = elim (Option-cases (lookup id sessions)) [
    | inl n ↦ rw (n, touch) refl
    | inr (info, k) ↦ rw (k, touch) (rw lookup-insert (rw f refl))
  ]

  module _ (id j : ℕ) (other : (id == j) ≡ false) where
    abbrev OnlyOwn : Connection V L → Connection V L → Type 0
    OnlyOwn c c' = lookup j c'.sessions ≡ lookup j c.sessions

    step-OnlyOwn :
        (input : Input V) (c : Connection V L)
        → OnlyOwn c (step json writer limiter config who id input c).0
    unfolding step take_message tell show_event
    step-OnlyOwn (message now (text_frame t)) c =
        ap (lookup j) (handle_text-sessions t (seen_at json writer limiter config who id now c))
        ∙ touch-other now id j c.sessions other
    step-OnlyOwn (message now binary) c = touch-other now id j c.sessions other
    step-OnlyOwn (message now ping) c = touch-other now id j c.sessions other
    step-OnlyOwn (message now pong) c = touch-other now id j c.sessions other
    step-OnlyOwn (message now close_frame) c = touch-other now id j c.sessions other
    step-OnlyOwn (message now broken) c = refl
    step-OnlyOwn ended c = refl
    step-OnlyOwn (engine_event room e) c = ground arith
    step-OnlyOwn (lagged room missed) c = ground arith
    step-OnlyOwn events_closed c = refl
    step-OnlyOwn (tick now room) c = ground arith
    step-OnlyOwn shutdown c = refl
    step-OnlyOwn (answered answer result) c = refl

    run-OnlyOwn :
        (inputs : List (Input V)) (c : Connection V L)
        → OnlyOwn c (run json writer limiter config who id inputs c)
    unfolding run
    run-OnlyOwn [] c = refl
    run-OnlyOwn (input ∷ inputs) c =
        let next = step json writer limiter config who id input c in
        run-cases json writer limiter config who id (OnlyOwn c) input inputs c
          (step-OnlyOwn input c) (run-OnlyOwn inputs next.0 ∙ step-OnlyOwn input c)

module _ {H V L : Type 0} (hash_token : String → H) (ct_eq : H → H → Bool)
    (decode : String → Option H) (entries : List (Entry H)) (json : Json V) (agent : Agent)
    (fresh : Fresh) (connection : ConnectionInfo) (writer : Writer V) (limiter : Limiter L)
    (config : Config) where
  abbrev served :
      List (Input V)
      → L
      → SessionRegistry
      → List (Outgoing V)
      → Principal
      → SessionInfo
      → Connection V L
  served = serve hash_token ct_eq decode entries json agent fresh connection writer limiter config

  abbrev pub whole_session :
      Bool → List Frame → List (Input V) → L → SessionRegistry → Connection V L
  whole_session =
      session hash_token ct_eq decode entries json agent fresh connection writer limiter config

  -- A session that ends leaves the entries of the others as they are, and none of its own.
  serve-sessions :
      (inputs : List (Input V)) (state : L) (sessions : SessionRegistry) (sent : List (Outgoing V))
      (who : Principal) (info : SessionInfo) (j : ℕ)
      → lookup info.session_id sessions ≡ none
      → lookup j (served inputs state sessions sent who info).sessions ≡ lookup j sessions
  unfolding serve open_session close_session
  serve-sessions inputs state sessions sent who info j unused =
      let c' : Connection V L =
        start json writer limiter config who fresh.now state (open_session info sessions) sent in
      elim (Bool-cases (info.session_id == j)) [
        | inl same ↦ rw lookup-remove (
            rw same (
              sym
                (subst (λ k. lookup k sessions ≡ none) ((==_iff info.session_id j).0 same) unused)))
        | inr other ↦ rw lookup-remove (
            rw other (
              run-OnlyOwn json writer limiter config who info.session_id j other inputs c'
              ∙ lookup-insert info.session_id j info sessions
              ∙ (rw other refl)))
      ]

  abbrev WhoEntered : Bool → List Frame → Type 0
  WhoEntered late frames =
      (late ≡ false)
      × (who : Principal) × (info : SessionInfo) × Opened hash_token ct_eq decode entries json agent
          fresh connection frames who info

  abbrev EndsWell : Bool → List Frame → SessionRegistry → Connection V L → Type 0
  EndsWell late frames sessions c =
      ((j : ℕ) → lookup j c.sessions ≡ lookup j sessions)
      × ((c.spawned ≡ []) ⊎ WhoEntered late frames)

  Opened-fresh :
      (frames : List Frame) (who : Principal) (info : SessionInfo)
      → Opened hash_token ct_eq decode entries json agent fresh connection frames who info
      → info.session_id ≡ fresh.session_id
  unfolding take_chars
  Opened-fresh frames who info
        (t, request, first, read, (method, hello, parsed, trusted, offered, known, drawn)) =
      ap (λ (i : SessionInfo). i.session_id) drawn

  session-EndsWell :
      (late : Bool) (frames : List Frame) (inputs : List (Input V)) (state : L)
      (sessions : SessionRegistry)
      → lookup fresh.session_id sessions ≡ none
      → EndsWell late frames sessions (whole_session late frames inputs state sessions)
  unfolding session
  session-EndsWell true frames inputs state sessions unused = ((λ j. refl), inl refl)
  session-EndsWell false frames inputs state sessions unused =
      elim (Option-cases
        (handshake hash_token ct_eq decode entries json agent fresh connection frames).1) [
          | inl n ↦ rw (n, session) ((λ j. refl), inl refl)
          | inr ((who, info), o) ↦
              let opened =
                handshake-Opened hash_token ct_eq decode entries json agent fresh connection frames
                  who info o in
              let unused' : lookup info.session_id sessions ≡ none =
                subst (λ k. lookup k sessions ≡ none) (sym (Opened-fresh frames who info opened))
                  unused in
              rw (o, session)
                (
                  (λ j.
                      serve-sessions inputs state sessions
                        (handshake hash_token ct_eq decode entries json agent fresh connection
                          frames).0
                        who info j unused'),
                  inr (refl, who, info, opened),
                )
        ]

-- Whatever a peer sends, a connection hands a request to the service only if the handshake came to
-- its end in time and let the caller in, by a first text that is a request of `session.hello` with a
-- trusted token and a supported version; and when the connection has ended, the registry of sessions
-- has the entries that it had before, if the id that was drawn for the session was not in use.
pub session-Opened :
    {H V L : Type 0} (hash_token : String → H) (ct_eq : H → H → Bool) (decode : String → Option H)
    (entries : List (Entry H)) (json : Json V) (agent : Agent) (fresh : Fresh)
    (connection : ConnectionInfo) (writer : Writer V) (limiter : Limiter L) (config : Config)
    (late : Bool) (frames : List Frame) (inputs : List (Input V)) (state : L)
    (sessions : SessionRegistry) (c : Connection V L)
    → lookup fresh.session_id sessions ≡ none
    → c
      ≡ session hash_token ct_eq decode entries json agent fresh connection writer limiter config
          late frames inputs state sessions
    → ((j : ℕ) → lookup j c.sessions ≡ lookup j sessions)
      × ((c.spawned ≡ [])
          ⊎ ((late ≡ false)
              × (who : Principal) × (info : SessionInfo) × Opened hash_token ct_eq decode entries
                  json agent fresh connection frames who info))
session-Opened hash_token ct_eq decode entries json agent fresh connection writer limiter config
      late frames inputs state sessions c unused ran =
    subst
      (EndsWell hash_token ct_eq decode entries json agent fresh connection writer limiter config
        late frames sessions)
      (sym ran)
      (session-EndsWell hash_token ct_eq decode entries json agent fresh connection writer limiter
        config late frames inputs state sessions unused)
