-- ===== src/Agent/Hello/Laws.antt =====
-- Who gets past the handshake of agent/src/api/ws.rs.
use kiln_print.Prelude.{
  ℕ, ◌≡◌, refl, sym, subst, ap, ap₂, ◌∙◌, ◌⊎◌, inl, inr, String, Bool, true, Option, none, some,
  List, [], ◌∷◌, Memᴰ, arith, keep, str_eq, eq_iff, if◌then◌else◌, Bool-cases, sum-cases,
}
use kiln_print.Error.{Message, Result, ◌>>=◌, ok, ok_or, chain-ok, ok_or-ok, Result-cases}
use kiln_print.Agent.Security.{Principal}
use kiln_print.Agent.Origin.{ConnectionInfo}
use kiln_print.Agent.Token
use kiln_print.Agent.Token.{Entry}
use kiln_print.Agent.Sessions.{SessionInfo}
use kiln_print.Agent.Hello.{
  RequestEnvelope, HelloParams, Frame, text_frame, binary, ping, pong, close_frame, broken,
  is_supported, larger, maximum, parse_params, Json, Fresh, Agent, session_info, token_of, open_as,
  with_hello, with_version, authenticate, answer_hello, greet, handshake, no_version,
}

larger-either : (v : ℕ) (o : Option ℕ) (m : ℕ) → larger v o ≡ some m → (m ≡ v) ⊎ (o ≡ some m)
larger-either v none m h = inl (ground (arith, h))
larger-either v (some w) m h = ground (arith, h)

maximum-keep :
    (p : ℕ → Bool) (vs : List ℕ) (m : ℕ) → maximum (keep p vs) ≡ some m → Memᴰ m vs × (p m ≡ true)
unfolding maximum
maximum-keep p [] m h = absurd (ground (arith, h))
maximum-keep p (v ∷ vs) m h = elim (Bool-cases (p v)) [
  | inl t ↦ elim (larger-either v (maximum (keep p vs)) m (rw (t, keep) at h)) [
    | inl same ↦ (Memᴰ.head same, subst (λ x. p x ≡ true) (sym same) t)
    | inr rest ↦
        let found : Memᴰ m vs × (p m ≡ true) = maximum-keep p vs m rest in
        (Memᴰ.tail found.0, found.1)
  ]
  | inr f ↦
      let found : Memᴰ m vs × (p m ≡ true) = maximum-keep p vs m (rw (f, keep) at h) in
      (Memᴰ.tail found.0, found.1)
]

parse_params-ok :
    {V T : Type 0} (is_null : V → Bool) (empty_object : V) (from_value : V → Message ⊎ T) (v : V)
    (t : T)
    → parse_params is_null empty_object from_value v ≡ ok t
    → from_value (if is_null v then empty_object else v) ≡ inr t
unfolding parse_params
parse_params-ok is_null empty_object from_value v t h =
    elim (sum-cases (from_value (if is_null v then empty_object else v))) [
      | inl (m, f) ↦ absurd (ground (arith, f, h))
      | inr (u, f) ↦ ground (arith, f, h)
    ]

-- The first text among the frames that the handshake reads.
abbrev pub first_text : List Frame → Option String
first_text [] = none
first_text (text_frame t ∷ frames) = some t
first_text (ping ∷ frames) = first_text frames
first_text (pong ∷ frames) = first_text frames
first_text (_ ∷ frames) = none

module _ {H V : Type 0} (hash_token : String → H) (ct_eq : H → H → Bool)
    (decode : String → Option H) (entries : List (Entry H)) (json : Json V) (agent : Agent)
    (fresh : Fresh) (connection : ConnectionInfo) where
  -- What a request must be to let a caller in.
  abbrev pub LetsIn : RequestEnvelope V → Principal → SessionInfo → Type 0
  LetsIn request who info =
      (request.method ≡ "session.hello")
      × (hello : HelloParams) × (json.hello_of
            (if json.is_null request.params then json.empty_object else request.params)
          ≡ inr hello)
      × (Token.authenticate hash_token ct_eq decode entries (token_of hello.auth) connection
          ≡ ok who)
      × Memᴰ info.protocol_version hello.protocol_versions
      × (is_supported info.protocol_version ≡ true)
      × (info ≡ session_info fresh hello connection info.protocol_version who)

  abbrev enter : HelloParams → Result (Principal × SessionInfo × V)
  enter = with_hello hash_token ct_eq decode entries json agent fresh connection

  abbrev enter_with : HelloParams → ℕ → Result (Principal × SessionInfo × V)
  enter_with = with_version hash_token ct_eq decode entries json agent fresh connection

  authenticate-hello :
      (request : RequestEnvelope V) (r : Principal × SessionInfo × V)
      → authenticate hash_token ct_eq decode entries json agent fresh connection request ≡ ok r
      → (request.method ≡ "session.hello")
        × (parse_params json.is_null json.empty_object json.hello_of request.params >>= enter)
          ≡ ok r
  unfolding authenticate
  authenticate-hello request r h = elim (Bool-cases (str_eq request.method "session.hello")) [
    | inl t ↦ ((eq_iff request.method "session.hello").0 t, (rw t at h))
    | inr f ↦ absurd (ground (arith, f, h))
  ]

  authenticate-LetsIn :
      (request : RequestEnvelope V) (who : Principal) (info : SessionInfo) (v : V)
      → authenticate hash_token ct_eq decode entries json agent fresh connection request
        ≡ ok (who, info, v)
      → LetsIn request who info
  unfolding with_hello with_version
  authenticate-LetsIn request who info v h =
      let (method, parsed) = authenticate-hello request (who, info, v) h in
      let (hello, read, entered) =
        chain-ok (parse_params json.is_null json.empty_object json.hello_of request.params) enter
          (who, info, v) parsed in
      let (version, greatest, granted) =
        chain-ok (ok_or (maximum (keep is_supported hello.protocol_versions)) no_version)
          (enter_with hello) (who, info, v) entered in
      let (caller, trusted, opened) =
        chain-ok
          (Token.authenticate hash_token ct_eq decode entries (token_of hello.auth) connection)
          (open_as hash_token ct_eq decode entries json agent fresh connection hello version)
          (who, info, v) granted in
      let same_info : info ≡ session_info fresh hello connection version caller =
        ground (arith, opened) in
      let same_who : caller ≡ who = ground (arith, opened) in
      let same_version : version ≡ info.protocol_version =
        ap (λ (i : SessionInfo). i.protocol_version) (sym same_info) in
      let chosen =
        maximum-keep is_supported hello.protocol_versions version
          (ok_or-ok _ no_version version greatest) in
      (
        method,
        hello,
        parse_params-ok json.is_null json.empty_object json.hello_of request.params hello read,
        subst
            (λ w.
              Token.authenticate hash_token ct_eq decode entries (token_of hello.auth) connection
              ≡ ok w)
            same_who trusted,
        subst (λ n. Memᴰ n hello.protocol_versions) same_version chosen.0,
        subst (λ n. is_supported n ≡ true) same_version chosen.1,
        same_info ∙ ap₂ (session_info fresh hello connection) same_version same_who,
      )

  abbrev pub Opened : List Frame → Principal → SessionInfo → Type 0
  Opened frames who info =
      (t : String) × (request : RequestEnvelope V) × (first_text frames ≡ some t)
      × (json.request_of t ≡ inr request)
      × LetsIn request who info

  answer_hello-LetsIn :
      (request : RequestEnvelope V) (who : Principal) (info : SessionInfo)
      → (answer_hello hash_token ct_eq decode entries json agent fresh connection request).1
        ≡ some (who, info)
      → LetsIn request who info
  unfolding answer_hello
  answer_hello-LetsIn request who info h =
      elim (Result-cases
        (authenticate hash_token ct_eq decode entries json agent fresh connection request)) [
          | inl ((w, i, v), f) ↦ authenticate-LetsIn request who info v (ground (arith, f, h))
          | inr (e, f) ↦ absurd (ground (arith, f, h))
        ]

  greet-LetsIn :
      (t : String) (who : Principal) (info : SessionInfo)
      → (greet hash_token ct_eq decode entries json agent fresh connection t).1 ≡ some (who, info)
      → (request : RequestEnvelope V) × (json.request_of t ≡ inr request) × LetsIn request who info
  unfolding greet
  greet-LetsIn t who info h = elim (sum-cases (json.request_of t)) [
    | inl (m, f) ↦ absurd (ground (arith, f, h))
    | inr (request, f) ↦ (request, f, answer_hello-LetsIn request who info (rw (f, greet) at h))
  ]

  -- A caller gets past the handshake only with a first text that is a request of `session.hello`,
  -- whose token the agent trusts, and which offers the version of the protocol that the session has
  -- and that the agent supports; the session is in the caller's name.
  pub handshake-Opened :
      (frames : List Frame) (who : Principal) (info : SessionInfo)
      → (handshake hash_token ct_eq decode entries json agent fresh connection frames).1
        ≡ some (who, info)
      → Opened frames who info
  unfolding handshake
  handshake-Opened [] who info h = absurd (ground (arith, h))
  handshake-Opened (text_frame t ∷ frames) who info h =
      let (request, read, let_in) = greet-LetsIn t who info h in (t, request, refl, read, let_in)
  handshake-Opened (ping ∷ frames) who info h = handshake-Opened frames who info h
  handshake-Opened (pong ∷ frames) who info h = handshake-Opened frames who info h
  handshake-Opened (binary ∷ frames) who info h = absurd (ground (arith, h))
  handshake-Opened (close_frame ∷ frames) who info h = absurd (ground (arith, h))
  handshake-Opened (broken ∷ frames) who info h = absurd (ground (arith, h))
