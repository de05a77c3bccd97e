-- ===== src/Agent/Connection/Replay.antt =====
-- A request id is taken up once: the replay guard of agent/src/api/ws.rs.
use kiln_print.Prelude.{
  ℕ, suc, ◌+◌, ◌≡◌, refl, sym, subst, ap, ◌≤◌, ◌<◌, ◌⊎◌, inl, inr, String, Bool, true, false, some,
  List, [], ◌∷◌, ◌++◌, length, length-append, ◌≢◌, arith, Bool-cases, sum-cases,
}
use kiln_print.Error.{ok, err, Result-cases}
use kiln_print.Agent.Security.{Principal}
use kiln_print.Agent.Sessions.{SessionRegistry}
use kiln_print.Agent.Hello.{
  RequestEnvelope, text_frame, binary, ping, pong, close_frame, broken, Outgoing, Json,
}
use kiln_print.Agent.Connection.{
  recent_request_ids, contains, Recent, remember, Connection, Input, message, ended, engine_event,
  lagged, events_closed, tick, shutdown, answered, Writer, Limiter, Config, check_envelope,
  duplicate_id, respond, spawn, rate, accept, handle_text, seen_at, tell, show_event, take_message,
  step, run, start,
}
use kiln_print.Agent.Connection.Recents.{
  IsRemembering, Kept, Kept-contained, remember-IsRemembering, remember-Kept, remember-new,
  no_ids-IsRemembering,
}

-- The ids are as before, or a new one was added.
abbrev Grows : Recent → Recent → Type 0
Grows r r' = (r' ≡ r) ⊎ ((id : String) × (contains r.seen id ≡ false) × (r' ≡ remember id r))

-- How many texts a connection takes up at most.
abbrev pub is_text : {V : Type 0} → Input V → ℕ
is_text (message now (text_frame t)) = 1
is_text _ = 0

abbrev pub texts : {V : Type 0} → List (Input V) → ℕ
texts [] = 0
texts (input ∷ inputs) = is_text input + texts inputs

module _ {V L : Type 0} (json : Json V) (writer : Writer V) (limiter : Limiter L) (config : Config)
    (who : Principal) where
  rate-recent :
      (request : RequestEnvelope V) (c : Connection V L)
      → (rate json writer limiter config who request c).recent ≡ c.recent
  unfolding rate spawn
  rate-recent request c = ground arith

  accept-Grows :
      (request : RequestEnvelope V) (c : Connection V L)
      → Grows c.recent (accept json writer limiter config who request c).recent
  unfolding accept
  accept-Grows request c = elim (Bool-cases (contains c.recent.seen request.id)) [
    | inl t ↦ inl (rw (t, accept) refl)
    | inr f ↦ inr (
      request.id,
      f,
      rw (f, accept) (rate-recent request (record c { recent = remember request.id c.recent })),
    )
  ]

  handle_text-Grows :
      (t : String) (c : Connection V L)
      → Grows c.recent (handle_text json writer limiter config who t c).recent
  unfolding handle_text
  handle_text-Grows t c = elim (sum-cases (json.request_of t)) [
    | inl (m, f) ↦ inl (rw (f, handle_text) refl)
    | inr (request, f) ↦ elim (Result-cases (check_envelope request)) [
      | inl (u, e) ↦ rw (f, e, handle_text) (accept-Grows request c)
      | inr (x, e) ↦ inl (rw (f, e, handle_text) refl)
    ]
  ]

  step-Grows :
      (session_id : ℕ) (input : Input V) (c : Connection V L)
      → (((step json writer limiter config who session_id input c).0.recent ≡ c.recent)
          ⊎ ((is_text input ≡ 1)
              × Grows c.recent (step json writer limiter config who session_id input c).0.recent))
  unfolding step take_message tell show_event
  step-Grows session_id (message now (text_frame t)) c =
      inr (refl, handle_text-Grows t (seen_at json writer limiter config who session_id now c))
  step-Grows session_id (message now binary) c = inl refl
  step-Grows session_id (message now ping) c = inl refl
  step-Grows session_id (message now pong) c = inl refl
  step-Grows session_id (message now close_frame) c = inl refl
  step-Grows session_id (message now broken) c = inl refl
  step-Grows session_id ended c = inl refl
  step-Grows session_id (engine_event room e) c = inl (ground arith)
  step-Grows session_id (lagged room missed) c = inl (ground arith)
  step-Grows session_id events_closed c = inl refl
  step-Grows session_id (tick now room) c = inl (ground arith)
  step-Grows session_id shutdown c = inl refl
  step-Grows session_id (answered id result) c = inl refl

-- What is remembered, by its invariant and how young the id is.
abbrev Holds : String → ℕ → Recent → Type 0
Holds id n r = IsRemembering r × Kept id n r.order

Grows-IsRemembering : (r r' : Recent) → IsRemembering r → Grows r r' → IsRemembering r'
Grows-IsRemembering r r' m (inl same) = subst IsRemembering (sym same) m
Grows-IsRemembering r r' m (inr (id, new, grown)) =
    subst IsRemembering (sym grown) (remember-IsRemembering id r m new)

Grows-Holds :
    (other : String) (n : ℕ) (r r' : Recent)
    → suc n < recent_request_ids
    → Holds other n r
    → Grows r r'
    → Holds other n r' ⊎ Holds other (suc n) r'
Grows-Holds other n r r' few h (inl same) = inl (subst (Holds other n) (sym same) h)
Grows-Holds other n r r' few h (inr (id, new, grown)) = inr (
    subst (Holds other (suc n)) (sym grown)
      (remember-IsRemembering id r h.0 new, remember-Kept id r h.0 new other n few h.1))

Holds-known : (id : String) (n : ℕ) (r : Recent) → Holds id n r → contains r.seen id ≡ true
Holds-known id n r h = Kept-contained id n r.seen r.order h.1 h.0.known

module _ {V L : Type 0} (json : Json V) (writer : Writer V) (limiter : Limiter L) (config : Config)
    (who : Principal) (session_id : ℕ) where
  abbrev after : Input V → Connection V L → Connection V L × Bool
  after = step json writer limiter config who session_id

  abbrev pub whole : List (Input V) → Connection V L → Connection V L
  whole = run json writer limiter config who session_id

  step-Holds :
      (id : String) (n : ℕ) (input : Input V) (c : Connection V L)
      → n + is_text input < recent_request_ids
      → Holds id n c.recent
      → (m : ℕ) × (m ≤ n + is_text input) × Holds id m (after input c).0.recent
  step-Holds id n input c few h =
      elim (step-Grows json writer limiter config who session_id input c) [
        | inl same ↦ (n, omega arith, subst (Holds id n) (sym same) h)
        | inr (one, grown) ↦
            elim (Grows-Holds id n c.recent (after input c).0.recent (omega (arith, few, one)) h
              grown) [
                | inl kept ↦ (n, omega arith, kept)
                | inr younger ↦ (suc n, omega (arith, one), younger)
              ]
      ]

  step-IsRemembering :
      (input : Input V) (c : Connection V L)
      → IsRemembering c.recent
      → IsRemembering (after input c).0.recent
  step-IsRemembering input c m =
      elim (step-Grows json writer limiter config who session_id input c) [
        | inl same ↦ subst IsRemembering (sym same) m
        | inr (one, grown) ↦ Grows-IsRemembering c.recent (after input c).0.recent m grown
      ]

  -- A round that ends the loop leaves the connection as it is.
  pub run-cases :
      (P : Connection V L → Type 0) (input : Input V) (inputs : List (Input V)) (c : Connection V L)
      → P (after input c).0
      → P (whole inputs (after input c).0)
      → P (whole (input ∷ inputs) c)
  unfolding run
  run-cases P input inputs c stopped went_on = elim (Bool-cases (after input c).1) [
    | inl t ↦ rw (t, run) went_on
    | inr f ↦ rw (f, run) stopped
  ]

  run-known :
      (id : String) (n : ℕ) (inputs : List (Input V)) (c : Connection V L)
      → n + texts inputs < recent_request_ids
      → Holds id n c.recent
      → contains (whole inputs c).recent.seen id ≡ true
  unfolding run
  run-known id n [] c few h = Holds-known id n c.recent h
  run-known id n (input ∷ inputs) c few h =
      let (m, bound, held) = step-Holds id n input c (omega (arith, few)) h in
      run-cases (λ c'. contains c'.recent.seen id ≡ true) input inputs c
        (Holds-known id m (after input c).0.recent held)
        (run-known id m inputs (after input c).0 (omega (arith, bound, few)) held)

  pub run-IsRemembering :
      (inputs : List (Input V)) (c : Connection V L)
      → IsRemembering c.recent
      → IsRemembering (whole inputs c).recent
  unfolding run
  run-IsRemembering [] c m = m
  run-IsRemembering (input ∷ inputs) c m =
      let m' = step-IsRemembering input c m in
      run-cases (λ c'. IsRemembering c'.recent) input inputs c m'
        (run-IsRemembering inputs (after input c).0 m')

  no-growth : {A : Type 0} (xs : List A) (x : A) → xs ≢ xs ++ x ∷ []
  no-growth xs x h = absurd (omega (arith, ap length h, length-append {0} xs (x ∷ [])))

  abbrev text_taken : String → Connection V L → Connection V L
  text_taken = handle_text json writer limiter config who

  accept-Holds :
      (request : RequestEnvelope V) (c : Connection V L)
      → IsRemembering c.recent
      → (accept json writer limiter config who request c).spawned ≡ c.spawned ++ request ∷ []
      → Holds request.id 0 (accept json writer limiter config who request c).recent
  unfolding accept
  accept-Holds request c m h = elim (Bool-cases (contains c.recent.seen request.id)) [
    | inl t ↦ absurd (no-growth c.spawned request (rw (t, accept) at h))
    | inr f ↦
        let c' : Connection V L = record c { recent = remember request.id c.recent } in
        rw (f, accept)
          (subst (Holds request.id 0) (sym (rate-recent json writer limiter config who request c'))
            (remember-IsRemembering request.id c.recent m f, remember-new request.id c.recent m f))
  ]

  spawned-Holds :
      (t : String) (request : RequestEnvelope V) (c : Connection V L)
      → IsRemembering c.recent
      → json.request_of t ≡ inr request
      → (text_taken t c).spawned ≡ c.spawned ++ request ∷ []
      → Holds request.id 0 (text_taken t c).recent
  unfolding handle_text
  spawned-Holds t request c m read h = elim (Result-cases (check_envelope request)) [
    | inl (u, e) ↦
        rw (read, e, handle_text) (accept-Holds request c m (rw (read, e, handle_text) at h))
    | inr (x, e) ↦ absurd (no-growth c.spawned request (rw (read, e, handle_text) at h))
  ]

-- A request that a connection handed to the service is not taken up again: as long as fewer than 512
-- texts came after it, a well-formed request with its id is answered as a duplicate and changes
-- nothing else.
pub run-replay :
    {V L : Type 0} (json : Json V) (writer : Writer V) (limiter : Limiter L) (config : Config)
    (who : Principal) (session_id now : ℕ) (state : L) (sessions : SessionRegistry)
    (sent : List (Outgoing V)) (before inputs : List (Input V)) (t t' : String)
    (request request' : RequestEnvelope V) (c c' : Connection V L)
    → c
      ≡ run json writer limiter config who session_id before
          (start json writer limiter config who now state sessions sent)
    → json.request_of t ≡ inr request
    → (handle_text json writer limiter config who t c).spawned ≡ c.spawned ++ request ∷ []
    → c'
      ≡ run json writer limiter config who session_id inputs
          (handle_text json writer limiter config who t c)
    → texts inputs < recent_request_ids
    → json.request_of t' ≡ inr request'
    → check_envelope request' ≡ ok tt
    → request'.id ≡ request.id
    → handle_text json writer limiter config who t' c'
      ≡ respond json writer limiter config who (some request'.id) (err duplicate_id) c'
unfolding handle_text accept
run-replay {V} {L} json writer limiter config who session_id now state sessions sent before inputs t
      t' request request' c c' reached read spawned went_on few read' fine same =
    let m : IsRemembering c.recent =
      subst (λ (x : Connection V L). IsRemembering x.recent) (sym reached)
        (run-IsRemembering json writer limiter config who session_id before
          (start json writer limiter config who now state sessions sent) no_ids-IsRemembering) in
    let known : contains c'.recent.seen request'.id ≡ true =
      subst (λ (x : Connection V L). contains x.recent.seen request'.id ≡ true) (sym went_on)
        (subst
          (λ id.
            contains
              (run json writer limiter config who session_id inputs
                (handle_text json writer limiter config who t c)).recent.seen
              id
            ≡ true)
          (sym same)
          (run-known json writer limiter config who session_id request.id 0 inputs
            (handle_text json writer limiter config who t c) (omega (arith, few))
            (spawned-Holds json writer limiter config who session_id t request c m read
              spawned))) in
    rw (read', fine, known, handle_text) refl
