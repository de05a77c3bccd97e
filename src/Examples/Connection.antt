-- ===== src/Examples/Connection.antt =====
-- WebSocket connections at concrete frames and events (agent/src/api/ws.rs). A JSON value is a
-- number, and the text of a request its id.
use kiln_print.Prelude.{
  ℕ, ◌≡◌, ◌⊎◌, inl, inr, refl, arith, String, true, false, none, some, List, [], ◌∷◌, All, lookup,
  str_eq, if◌then◌else◌,
}
use kiln_print.Error.{Message, ok, err, text}
use kiln_print.Engine.Types.{JobEventKind, job_event}
use kiln_print.Agent.Security.{Principal, has}
use kiln_print.Agent.Sessions.{SessionInfo}
use kiln_print.Agent.Hello.{
  RequestEnvelope, Frame, text_frame, ping, response, event, token, maximum, Json, Fresh, Agent,
}
use kiln_print.Agent.Hello.Laws.{Opened}
use kiln_print.Agent.Connection.{
  Connection, Input, message, engine_event, ended, Writer, Limiter, Config, duplicate_id, respond,
  handle_text, run, start,
}
use kiln_print.Agent.Connection.Replay.{run-replay}
use kiln_print.Agent.Connection.Events.{Rising, Allowed, run-told}
use kiln_print.Agent.Connection.Session.{session, session-Opened}
use kiln_print.Examples.Data.{queued_job}
use kiln_print.Examples.Agent.{lab, registered, browser}
use kiln_print.Agent.Token

abbrev envelope_of : String → Message ⊎ RequestEnvelope ℕ
envelope_of t =
    if str_eq t ""
    then inl (text "end of input" ∷ [])
    else inr (record {
      protocol_version = some 1;
      kind = some "request";
      id = t;
      method = "session.hello";
      params = 0;
    })

abbrev json : Json ℕ
json = record {
  request_of = envelope_of;
  id_of = λ t. none;
  is_null = λ v. false;
  empty_object = 0;
  hello_of = λ v. inr (record {
    protocol_versions = 2 ∷ 1 ∷ [];
    client = record { name = "Lab"; version = none };
    auth = token "secret";
  });
  welcome = λ w. 1;
}

abbrev writer : Writer ℕ
writer = record {
  job_value = λ j. some j.job_id;
  printer_value = λ p. some 0;
  missed_events = λ n. n;
}

abbrev unlimited : Limiter ℕ
unlimited = record { check = λ n client. (n, true) }

abbrev config : Config
config = record { handshake_timeout_secs = 10; max_in_flight = 2; heartbeat_secs = 30 }

abbrev opened : Connection ℕ ℕ
opened = start json writer unlimited config lab 0 0 [] (response none (ok 1) ∷ [])

abbrev asked : Connection ℕ ℕ
unfolding handle_text
asked = handle_text json writer unlimited config lab "a" opened

abbrev later : List (Input ℕ)
later = message 1 ping ∷ message 2 (text_frame "b") ∷ []

abbrev request : String → RequestEnvelope ℕ
request t = record {
  protocol_version = some 1;
  kind = some "request";
  id = t;
  method = "session.hello";
  params = 0;
}

abbrev much_later : Connection ℕ ℕ
unfolding run handle_text
much_later = run json writer unlimited config lab 7 later asked

run-replay_example :
    handle_text json writer unlimited config lab "a" much_later
    ≡ respond json writer unlimited config lab (some "a") (err duplicate_id) much_later
unfolding run handle_text
run-replay_example =
    run-replay json writer unlimited config lab 7 0 0 [] (response none (ok 1) ∷ []) [] later "a"
      "a" (request "a") (request "a") opened much_later refl refl refl refl (omega arith) refl refl
      refl

-- A job of the caller's, then one of another client's.
abbrev happenings : List (Input ℕ)
happenings =
    engine_event true (job_event JobEventKind.created queued_job)
    ∷ engine_event true (job_event JobEventKind.created (record queued_job { client_id = "other" }))
    ∷ ended
    ∷ []

abbrev informed : Connection ℕ ℕ
informed = record opened { seq = 1; sent = response none (ok 1) ∷ event "job.created" 1 7 ∷ [] }

run-told_example :
    Rising json writer unlimited config lab 0 informed.sent informed.seq
    × All (Allowed json writer unlimited config lab) informed.sent
unfolding run has
run-told_example =
    run-told json writer unlimited config lab 7 0 0 [] none (ok 1) happenings informed refl

abbrev fresh : Fresh
fresh = record { now = 0; session_id = 7 }

abbrev agent : Agent
agent = record {
  limits = record { max_document_bytes = 64; max_message_bytes = 128; max_copies = 9 };
  document_types = "RAW" ∷ [];
  languages = "ZPL" ∷ [];
  heartbeat_secs = 30;
}

abbrev frames : List Frame
frames = ping ∷ text_frame "hello" ∷ []

abbrev welcomed : Connection ℕ ℕ
unfolding session
welcomed =
    session (λ t. t) str_eq some (registered ∷ []) json agent fresh browser writer unlimited config
      false frames (message 1 (text_frame "a") ∷ ended ∷ []) 0 []

served_one : welcomed.spawned ≡ request "a" ∷ []
unfolding session Token.authenticate maximum
served_one = refl

session-Opened_example :
    ((j : ℕ) → lookup j welcomed.sessions ≡ none)
    × ((welcomed.spawned ≡ [])
        ⊎ ((false ≡ false)
            × (who : Principal) × (info : SessionInfo) × Opened
                (λ t. t)
                str_eq
                some
                (registered ∷ [])
                json
                agent
                fresh
                browser
                frames
                who
                info))
unfolding session lookup
session-Opened_example =
    session-Opened (λ t. t) str_eq some (registered ∷ []) json agent fresh browser writer unlimited
      config false frames (message 1 (text_frame "a") ∷ ended ∷ []) 0 [] welcomed refl refl
