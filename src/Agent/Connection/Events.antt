-- ===== src/Agent/Connection/Events.antt =====
-- What a connection is told of the engine's events (agent/src/api/ws.rs).
use kiln_print.Prelude.{
  ℕ, ◌+◌, ◌-◌, ◌*◌, ◌≡◌, refl, sym, subst, ◌≤◌, ◌<◌, ◌⊎◌, inl, inr, String, Bool, true, false,
  Option, some, List, [], ◌∷◌, ◌++◌, All, All-append, arith, ltb, ◌==◌, eq_iff, Bool-cases,
  Option-cases, sum-cases,
}
use kiln_print.Error.{Result, Result-cases}
use kiln_print.Engine.Types.{EngineEvent, job_event, printer_event}
use kiln_print.Engine.Names.{name}
use kiln_print.Engine.Submit.Checks.{allows}
use kiln_print.Agent.Security.{
  Principal, has, printer_scope, jobs_read, jobs_read_all, printers_read,
}
use kiln_print.Agent.Sessions.{SessionRegistry}
use kiln_print.Agent.Hello.{
  RequestEnvelope, text_frame, binary, ping, pong, close_frame, broken, Outgoing, response, event,
  close, ping_out, Json,
}
use kiln_print.Agent.Connection.Replay.{run-cases}
use kiln_print.Agent.Connection.{
  contains, remember, Connection, Input, message, ended, engine_event, lagged, events_closed, tick,
  shutdown, answered, Writer, Limiter, Config, check_envelope, spawn, rate, accept, handle_text,
  visible_event, tell, show_event, take_message, seen_at, heartbeat, step, run, start,
}

-- An event that the caller may be told of: a job that it may read, a printer that it may see.
abbrev pub MayKnow : Principal → EngineEvent → Type 0
MayKnow who (job_event kind j) =
    (has who jobs_read_all ≡ true) ⊎ ((has who jobs_read ≡ true) × (j.client_id ≡ who.client_id))
MayKnow who (printer_event kind p) =
    (has who printers_read ≡ true) × (allows (printer_scope who) p ≡ true)

module _ {V L : Type 0} (json : Json V) (writer : Writer V) (limiter : Limiter L) (config : Config)
    (who : Principal) where
  -- How an event is written.
  abbrev pub content : EngineEvent → Option V
  content (job_event kind j) = writer.job_value j
  content (printer_event kind p) = writer.printer_value p

  -- What is sent, where it is an event: the notice of missed ones, or one that the caller may know.
  abbrev pub Allowed : Outgoing V → Type 0
  Allowed (event n q v) =
      ((n ≡ "session.lagged") × ((missed : ℕ) × (v ≡ writer.missed_events missed)))
      ⊎ ((e : EngineEvent) × (n ≡ name e) × (content e ≡ some v) × MayKnow who e)
  Allowed (response id r) = Unit {0}
  Allowed (close code reason) = Unit {0}
  Allowed ping_out = Unit {0}

  -- The numbers of the events rise from `lo`, none above `hi`.
  abbrev pub Rising : ℕ → List (Outgoing V) → ℕ → Type 0
  Rising lo [] hi = lo ≤ hi
  Rising lo (event n q v ∷ sent) hi = (lo < q) × Rising q sent hi
  Rising lo (response id r ∷ sent) hi = Rising lo sent hi
  Rising lo (close code reason ∷ sent) hi = Rising lo sent hi
  Rising lo (ping_out ∷ sent) hi = Rising lo sent hi

  Rising-grow :
      (lo mid hi : ℕ) (sent : List (Outgoing V)) → mid ≤ hi → Rising lo sent mid → Rising lo sent hi
  Rising-grow lo mid hi [] h r = omega (arith, h, r)
  Rising-grow lo mid hi (event n q v ∷ sent) h r = (r.0, Rising-grow q mid hi sent h r.1)
  Rising-grow lo mid hi (response id x ∷ sent) h r = Rising-grow lo mid hi sent h r
  Rising-grow lo mid hi (close code reason ∷ sent) h r = Rising-grow lo mid hi sent h r
  Rising-grow lo mid hi (ping_out ∷ sent) h r = Rising-grow lo mid hi sent h r

  Rising-event :
      (lo mid q : ℕ) (n : String) (v : V) (sent : List (Outgoing V))
      → mid < q
      → Rising lo sent mid
      → Rising lo (sent ++ event n q v ∷ []) q
  Rising-event lo mid q n v [] h r = (omega (arith, h, r), omega arith)
  Rising-event lo mid q n v (event m p w ∷ sent) h r = (r.0, Rising-event p mid q n v sent h r.1)
  Rising-event lo mid q n v (response id x ∷ sent) h r = Rising-event lo mid q n v sent h r
  Rising-event lo mid q n v (close code reason ∷ sent) h r = Rising-event lo mid q n v sent h r
  Rising-event lo mid q n v (ping_out ∷ sent) h r = Rising-event lo mid q n v sent h r

  abbrev is_event : Outgoing V → Bool
  is_event (event n q v) = true
  is_event _ = false

  Rising-one : (lo hi : ℕ) (x : Outgoing V) → is_event x ≡ false → lo ≤ hi → Rising lo (x ∷ []) hi
  Rising-one lo hi (event n q v) f h = absurd (cc)
  Rising-one lo hi (response id r) f h = h
  Rising-one lo hi (close code reason) f h = h
  Rising-one lo hi ping_out f h = h

  Rising-other :
      (lo hi : ℕ) (x : Outgoing V) (sent : List (Outgoing V))
      → is_event x ≡ false
      → Rising lo sent hi
      → Rising lo (sent ++ x ∷ []) hi
  Rising-other lo hi x [] f r = Rising-one lo hi x f r
  Rising-other lo hi x (event m p w ∷ sent) f r = (r.0, Rising-other p hi x sent f r.1)
  Rising-other lo hi x (response id y ∷ sent) f r = Rising-other lo hi x sent f r
  Rising-other lo hi x (close code reason ∷ sent) f r = Rising-other lo hi x sent f r
  Rising-other lo hi x (ping_out ∷ sent) f r = Rising-other lo hi x sent f r

  Allowed-other : (x : Outgoing V) → is_event x ≡ false → Allowed x
  Allowed-other (event n q v) f = absurd (cc)
  Allowed-other (response id r) f = tt
  Allowed-other (close code reason) f = tt
  Allowed-other ping_out f = tt

  visible_event-MayKnow :
      (e : EngineEvent) (v : V)
      → visible_event json writer limiter config who e ≡ some v
      → (content e ≡ some v) × MayKnow who e
  unfolding visible_event
  visible_event-MayKnow (job_event kind j) v h = (
    ground (arith, h),
    elim (Bool-cases (has who jobs_read_all)) [
      | inl t ↦ inl t
      | inr f ↦
          inr (ground (arith, f, h), (eq_iff j.client_id who.client_id).0 (ground (arith, f, h)))
    ],
  )
  visible_event-MayKnow (printer_event kind p) v h =
      (ground (arith, h), (ground (arith, h), ground (arith, h)))

  -- The numbers and contents of what was sent, up to the last number given.
  pub record IsTold (c : Connection V L) : Type 0 where
    pub rising : Rising 0 c.sent c.seq
    pub allowed : All Allowed c.sent

  -- At most one thing is sent, and it is no event.
  abbrev Extends : Connection V L → Connection V L → Type 0
  Extends c c' =
      (c'.seq ≡ c.seq)
      × ((c'.sent ≡ c.sent)
          ⊎ ((x : Outgoing V) × (is_event x ≡ false) × (c'.sent ≡ c.sent ++ x ∷ [])))

  Extends-IsTold : (c c' : Connection V L) → IsTold c → Extends c c' → IsTold c'
  Extends-IsTold c c' i (same, inl quiet) = record {
    rising =
        subst (Rising 0 c'.sent) (sym same) (subst (λ s. Rising 0 s c.seq) (sym quiet) i.rising);
    allowed = subst (All Allowed) (sym quiet) i.allowed;
  }
  Extends-IsTold c c' i (same, inr (x, f, said)) = record {
    rising =
        subst (Rising 0 c'.sent) (sym same)
          (subst (λ s. Rising 0 s c.seq) (sym said) (Rising-other 0 c.seq x c.sent f i.rising));
    allowed =
        subst (All Allowed) (sym said)
          (All-append Allowed c.sent (x ∷ []) i.allowed (Allowed-other x f, tt));
  }

  spawn-Extends :
      (request : RequestEnvelope V) (c : Connection V L)
      → Extends c (spawn json writer limiter config who request c)
  unfolding spawn
  spawn-Extends request c = elim (Bool-cases (c.permits == 0)) [
    | inl t ↦ rw (t, spawn) (refl, inr (_, refl, refl))
    | inr f ↦ rw (f, spawn) (refl, inl refl)
  ]

  rate-Extends :
      (request : RequestEnvelope V) (c : Connection V L)
      → Extends c (rate json writer limiter config who request c)
  unfolding rate
  rate-Extends request c = elim (Bool-cases (limiter.check c.limiter who.client_id).1) [
    | inl t ↦
        rw (t, rate)
          (spawn-Extends request (record c { limiter = (limiter.check c.limiter who.client_id).0 }))
    | inr f ↦ rw (f, rate) (refl, inr (_, refl, refl))
  ]

  accept-Extends :
      (request : RequestEnvelope V) (c : Connection V L)
      → Extends c (accept json writer limiter config who request c)
  unfolding accept
  accept-Extends request c = elim (Bool-cases (contains c.recent.seen request.id)) [
    | inl t ↦ rw (t, accept) (refl, inr (_, refl, refl))
    | inr f ↦
        rw (f, accept) (rate-Extends request (record c { recent = remember request.id c.recent }))
  ]

  handle_text-Extends :
      (t : String) (c : Connection V L) → Extends c (handle_text json writer limiter config who t c)
  unfolding handle_text
  handle_text-Extends t c = elim (sum-cases (json.request_of t)) [
    | inl (m, f) ↦ rw (f, handle_text) (refl, inr (_, refl, refl))
    | inr (request, f) ↦ elim (Result-cases (check_envelope request)) [
      | inl (u, e) ↦ rw (f, e, handle_text) (accept-Extends request c)
      | inr (x, e) ↦ rw (f, e, handle_text) (refl, inr (_, refl, refl))
    ]
  ]

  tell-IsTold :
      (room : Bool) (n : String) (v : V) (c : Connection V L)
      → ((n ≡ "session.lagged") × ((missed : ℕ) × (v ≡ writer.missed_events missed)))
        ⊎ ((e : EngineEvent) × (n ≡ name e) × (content e ≡ some v) × MayKnow who e)
      → IsTold c
      → IsTold (tell json writer limiter config who room n v c)
  unfolding tell
  tell-IsTold true n v c ok_to_tell i = record {
    rising = Rising-event 0 c.seq (c.seq + 1) n v c.sent (omega arith) i.rising;
    allowed = All-append Allowed c.sent (event n (c.seq + 1) v ∷ []) i.allowed (ok_to_tell, tt);
  }
  tell-IsTold false n v c ok_to_tell i = record {
    rising = Rising-grow 0 c.seq (c.seq + 1) c.sent (omega arith) i.rising;
    allowed = i.allowed;
  }

  show_event-IsTold :
      (room : Bool) (e : EngineEvent) (c : Connection V L)
      → IsTold c
      → IsTold (show_event json writer limiter config who room e c)
  unfolding show_event
  show_event-IsTold room e c i =
      elim (Option-cases (visible_event json writer limiter config who e)) [
        | inl hidden ↦ rw (hidden, show_event) i
        | inr (v, shown) ↦
            rw (shown, show_event)
              (tell-IsTold room (name e) v c
                (inr (let known = visible_event-MayKnow e v shown in (e, refl, known.0, known.1)))
                i)
      ]

  tick-Extends :
      (session_id now : ℕ) (room : Bool) (c : Connection V L)
      → Extends c (step json writer limiter config who session_id (tick now room) c).0
  unfolding step
  tick-Extends session_id now true c =
      elim (Bool-cases (ltb (heartbeat json writer limiter config who * 3) (now - c.last_seen))) [
        | inl late ↦ rw (late, step) (refl, inr (_, refl, refl))
        | inr fine ↦ rw (fine, step) (refl, inr (_, refl, refl))
      ]
  tick-Extends session_id now false c =
      elim (Bool-cases (ltb (heartbeat json writer limiter config who * 3) (now - c.last_seen))) [
        | inl late ↦ rw (late, step) (refl, inr (_, refl, refl))
        | inr fine ↦ rw (fine, step) (refl, inl refl)
      ]

  step-IsTold :
      (session_id : ℕ) (input : Input V) (c : Connection V L)
      → IsTold c
      → IsTold (step json writer limiter config who session_id input c).0
  unfolding step take_message
  step-IsTold session_id (message now (text_frame t)) c i =
      let c' = seen_at json writer limiter config who session_id now c in
      Extends-IsTold c' (handle_text json writer limiter config who t c')
        (record { rising = i.rising; allowed = i.allowed }) (handle_text-Extends t c')
  step-IsTold session_id (message now binary) c i = Extends-IsTold c _ i (refl, inr (_, refl, refl))
  step-IsTold session_id (message now ping) c i = Extends-IsTold c _ i (refl, inl refl)
  step-IsTold session_id (message now pong) c i = Extends-IsTold c _ i (refl, inl refl)
  step-IsTold session_id (message now close_frame) c i = Extends-IsTold c _ i (refl, inl refl)
  step-IsTold session_id (message now broken) c i = i
  step-IsTold session_id ended c i = i
  step-IsTold session_id (engine_event room e) c i = show_event-IsTold room e c i
  step-IsTold session_id (lagged room missed) c i =
      tell-IsTold room "session.lagged" (writer.missed_events missed) c (inl (refl, (missed, refl)))
        i
  step-IsTold session_id events_closed c i = i
  step-IsTold session_id (tick now room) c i =
      Extends-IsTold c _ i (tick-Extends session_id now room c)
  step-IsTold session_id shutdown c i = Extends-IsTold c _ i (refl, inr (_, refl, refl))
  step-IsTold session_id (answered id result) c i = Extends-IsTold c _ i (refl, inr (_, refl, refl))

  told :
      (session_id : ℕ) (inputs : List (Input V)) (c : Connection V L)
      → IsTold c
      → IsTold (run json writer limiter config who session_id inputs c)
  unfolding run
  told session_id [] c i = i
  told session_id (input ∷ inputs) c i =
      let next = step json writer limiter config who session_id input c in
      let i' : IsTold next.0 = step-IsTold session_id input c i in
      run-cases json writer limiter config who session_id IsTold input inputs c i'
        (told session_id inputs next.0 i')

-- Whatever happens to a connection after its welcome, the events that it sends carry rising
-- numbers above 0, and each is the notice of missed events, or has the name and the content of an
-- event of a job or printer that the caller may know of: any job for a caller with the permission
-- to read every client's jobs, else one of its own if it may read jobs; and a printer that it may
-- use, if it may read printers.
pub run-told :
    {V L : Type 0} (json : Json V) (writer : Writer V) (limiter : Limiter L) (config : Config)
    (who : Principal) (session_id now : ℕ) (state : L) (sessions : SessionRegistry)
    (id : Option String) (welcome : Result V) (inputs : List (Input V)) (c : Connection V L)
    → c
      ≡ run json writer limiter config who session_id inputs
          (start json writer limiter config who now state sessions (response id welcome ∷ []))
    → Rising json writer limiter config who 0 c.sent c.seq
      × All (Allowed json writer limiter config who) c.sent
run-told {V} {L} json writer limiter config who session_id now state sessions id welcome inputs c
      reached =
    let c' : Connection V L =
      start json writer limiter config who now state sessions (response id welcome ∷ []) in
    let i = subst (IsTold json writer limiter config who) (sym reached) (
      told json writer limiter config who session_id inputs c'
        (record { rising = omega arith; allowed = (tt, tt) })) in
    (i.rising, i.allowed)
