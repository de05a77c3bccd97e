-- ===== src/Agent/Token/Trust.antt =====
-- Whom `TokenAuthenticator` of agent/src/security/token.rs lets in.
use kiln_print.Prelude.{
  ◌≡◌, ◌⊎◌, refl, sym, ap, ◌∙◌, subst, inl, inr, String, Bool, true, Option, none, some, List, [],
  ◌∷◌, Memᴰ, any, arith, str_eq, eq_iff, if◌then◌else◌, Bool-cases, Option-cases, sum-cases,
}
use kiln_print.Error.{ok}
use kiln_print.Agent.Security.{Principal}
use kiln_print.Agent.Origin.{ConnectionInfo}
use kiln_print.Agent.Token.{
  ClientConfig, SecurityConfig, Entry, normalise_all, admin_principal, client_principal, admit,
  client_entries, admin_entry, new, match_entry, authenticate,
}

-- A browser's origin is one of those configured.
abbrev pub IsBound : List String → Option String → Type 0
IsBound origins none = Unit {0}
IsBound origins (some o) = Memᴰ o (normalise_all origins)

Memᴰ-nil : {A : Type 0} {a : A} → Memᴰ a [] → ⊥
Memᴰ-nil h = elim h [ ]

Memᴰ-cons : {A : Type 0} {a b : A} {l : List A} → Memᴰ a (b ∷ l) → (a ≡ b) ⊎ Memᴰ a l
Memᴰ-cons (Memᴰ.head e) = inl e
Memᴰ-cons (Memᴰ.tail m) = inr m

any-Memᴰ : (os : List String) (o : String) → any (λ x. str_eq x o) os ≡ true → Memᴰ o os
any-Memᴰ [] o h = absurd (ground (arith, h))
any-Memᴰ (x ∷ os) o h = elim (Bool-cases (str_eq x o)) [
  | inl t ↦ Memᴰ.head (sym ((eq_iff x o).0 t))
  | inr f ↦ Memᴰ.tail (any-Memᴰ os o (ground (arith, f, h)))
]

module _ {H : Type 0} (hash_token : String → H) (ct_eq : H → H → Bool)
    (decode : String → Option H) where
  -- The caller holds the administrator's token, or that of a configured client, is bound to the
  -- origins of that configuration, and gets what that configuration grants.
  abbrev pub Granted : Option String → SecurityConfig → String → Option String → Principal → Type 0
  Granted admin_token security token origin who =
      ((a : String) × (admin_token ≡ some a)
        × (hash_token a ≡ hash_token token)
        × (who ≡ record admin_principal { origin = origin })
        × IsBound security.admin_origins origin)
      ⊎ ((c : ClientConfig) × Memᴰ c security.clients
          × (decode c.token_sha256 ≡ some (hash_token token))
          × (who ≡ record (client_principal c) { origin = origin })
          × IsBound c.origins origin)

  match_entry-Memᴰ :
      (presented : H) (matched : Option (Entry H)) (es : List (Entry H)) (e : Entry H)
      → match_entry hash_token ct_eq decode presented matched es ≡ some e
      → (matched ≡ some e) ⊎ (Memᴰ e es × (ct_eq e.hash presented ≡ true))
  unfolding match_entry
  match_entry-Memᴰ presented matched [] e h = inl h
  match_entry-Memᴰ presented matched (x ∷ es) e h = elim (Bool-cases (ct_eq x.hash presented)) [
    | inl t ↦
        elim (match_entry-Memᴰ presented (some x) es e (
          subst
            (λ b.
              match_entry hash_token ct_eq decode presented (if b then some x else matched) es
              ≡ some e)
            t h)) [
              | inl s ↦
                  let same : x ≡ e = ground (arith, s) in
                  inr (Memᴰ.head (sym same), subst (λ y. ct_eq y.hash presented ≡ true) same t)
              | inr (m, k) ↦ inr (Memᴰ.tail m, k)
            ]
    | inr f ↦
        elim (match_entry-Memᴰ presented matched es e (
          subst
            (λ b.
              match_entry hash_token ct_eq decode presented (if b then some x else matched) es
              ≡ some e)
            f h)) [ inl s ↦ inl s | inr (m, k) ↦ inr (Memᴰ.tail m, k) ]
  ]

  admit-IsBound :
      (e : Entry H) (origins : List String) (origin : Option String) (who : Principal)
      → e.origins ≡ normalise_all origins
      → admit e origin ≡ ok who
      → (who ≡ record e.principal { origin = origin }) × IsBound origins origin
  unfolding admit
  admit-IsBound e origins none who same h = (ground (arith, h), tt)
  admit-IsBound e origins (some o) who same h =
      elim (Bool-cases (any (λ x. str_eq x o) e.origins)) [
        | inl t ↦ (ground (arith, h, t), subst (λ os. Memᴰ o os) same (any-Memᴰ e.origins o t))
        | inr f ↦ absurd (ground (arith, f, h))
      ]

  client_entries-Memᴰ :
      (cs : List ClientConfig) (es : List (Entry H)) (e : Entry H)
      → client_entries hash_token ct_eq decode cs ≡ inr es
      → Memᴰ e es
      → (c : ClientConfig) × Memᴰ c cs
        × (decode c.token_sha256 ≡ some e.hash)
        × (e.principal ≡ client_principal c)
        × (e.origins ≡ normalise_all c.origins)
  unfolding client_entries
  client_entries-Memᴰ [] es e h m =
      let none_left : es ≡ [] = ground (arith, h) in
      absurd (Memᴰ-nil (subst (λ xs. Memᴰ e xs) none_left m))
  client_entries-Memᴰ (c ∷ cs) es e h m = elim (Option-cases (decode c.token_sha256)) [
    | inl n ↦ absurd (ground (arith, n, h))
    | inr (x, d) ↦ elim (sum-cases (client_entries hash_token ct_eq decode cs)) [
      | inl (message, f) ↦ absurd (ground (arith, d, f, h))
      | inr (rest, f) ↦
          let first : Entry H = record {
            hash = x;
            principal = client_principal c;
            origins = normalise_all c.origins;
          } in
          let split : es ≡ first ∷ rest = ground (arith, d, f, h) in
          elim (Memᴰ-cons (subst (λ xs. Memᴰ e xs) split m)) [
            | inl same ↦ (
              c,
              Memᴰ.head refl,
              d ∙ ap (λ (y : Entry H). some y.hash) (sym same),
              ap (λ (y : Entry H). y.principal) same,
              ap (λ (y : Entry H). y.origins) same,
            )
            | inr later ↦
                let (k, in_cs, hashed, granted, bound) = client_entries-Memᴰ cs rest e f later in
                (k, Memᴰ.tail in_cs, hashed, granted, bound)
          ]
    ]
  ]

  client-Granted :
      (admin_token : Option String) (security : SecurityConfig) (es : List (Entry H))
      (token : String) (origin : Option String) (e : Entry H) (who : Principal)
      → client_entries hash_token ct_eq decode security.clients ≡ inr es
      → Memᴰ e es
      → e.hash ≡ hash_token token
      → admit e origin ≡ ok who
      → Granted admin_token security token origin who
  client-Granted admin_token security es token origin e who h m same a =
      let (c, in_cs, d, principal_eq, origins_eq) = client_entries-Memᴰ security.clients es e h m in
      let (granted, bound) = admit-IsBound e c.origins origin who origins_eq a in
      inr (
        c,
        in_cs,
        d ∙ ap some same,
        granted ∙ ap (λ (p : Principal). record p { origin = origin }) principal_eq,
        bound,
      )

  entry-Granted :
      (admin_token : Option String) (security : SecurityConfig) (entries : List (Entry H))
      (token : String) (origin : Option String) (e : Entry H) (who : Principal)
      → new hash_token ct_eq decode admin_token security ≡ inr entries
      → Memᴰ e entries
      → e.hash ≡ hash_token token
      → admit e origin ≡ ok who
      → Granted admin_token security token origin who
  unfolding new
  entry-Granted none security entries token origin e who h m same a =
      client-Granted none security entries token origin e who h m same a
  entry-Granted (some t) security entries token origin e who h m same a =
      elim (sum-cases (client_entries hash_token ct_eq decode security.clients)) [
        | inl (message, f) ↦ absurd (ground (arith, f, h))
        | inr (es, f) ↦
            let first : Entry H = admin_entry hash_token ct_eq decode t security in
            let split : entries ≡ first ∷ es = ground (arith, f, h) in
            elim (Memᴰ-cons (subst (λ xs. Memᴰ e xs) split m)) [
              | inr later ↦ client-Granted (some t) security es token origin e who f later same a
              | inl eq ↦
                  let (granted, bound) =
                    admit-IsBound e security.admin_origins origin who
                      (ap (λ (y : Entry H). y.origins) eq) a in
                  inl (
                    t,
                    refl,
                    sym (ap (λ (y : Entry H). y.hash) eq) ∙ same,
                    granted ∙ ap (λ (y : Entry H). record y.principal { origin = origin }) eq,
                    bound,
                  )
            ]
      ]

  -- A caller that is let in presented the administrator's token or one whose hash is configured for a
  -- client, got exactly what is configured for it, and, if it is a browser, comes from an origin
  -- configured for it; this holds if equal hashes are what the comparison of hashes accepts.
  pub authenticate-Granted :
      (admin_token : Option String) (security : SecurityConfig) (entries : List (Entry H))
      (token : String) (connection : ConnectionInfo) (who : Principal)
      → ((a b : H) → ct_eq a b ≡ true → a ≡ b)
      → new hash_token ct_eq decode admin_token security ≡ inr entries
      → authenticate hash_token ct_eq decode entries token connection ≡ ok who
      → Granted admin_token security token connection.origin who
  unfolding authenticate
  authenticate-Granted admin_token security entries token connection who sound h a =
      elim (Option-cases (match_entry hash_token ct_eq decode (hash_token token) none entries)) [
        | inl n ↦ absurd (ground (arith, n, a))
        | inr (e, f) ↦ elim (match_entry-Memᴰ (hash_token token) none entries e f) [
          | inl none_is ↦ absurd (ground (arith, none_is))
          | inr (m, t) ↦
              entry-Granted admin_token security entries token connection.origin e who h m
                (sound e.hash (hash_token token) t) (ground (arith, f, a))
        ]
      ]
