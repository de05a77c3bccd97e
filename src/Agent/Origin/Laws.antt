-- ===== src/Agent/Origin/Laws.antt =====
-- What passes the checks before authentication of agent/src/security/origin.rs.
use kiln_print.Prelude.{
  ◌≡◌, ◌⊎◌, refl, inl, inr, ◌∙◌, sym, subst, sum-cases, String, true, false, not, ◌||◌, Option,
  none, some, arith, str_eq, eq_iff, if◌then◌else◌, append, Bool-cases, Option-cases, split_at_text,
  to_ascii_lowercase, trim_end_matches, unwrap_or,
}
use kiln_print.Engine.Submit.Checks.{all_chars}
use kiln_print.Engine.Submit.JobNames.{trim_start, trim_end}
use kiln_print.Agent.Origin.{
  Headers, Peer, ConnectionInfo, split_host_port, print_origin, origin_from, is_empty, is_plain,
  slash, default_port, loopback_name, origin_of_parts, origin_of_scheme, origin_of_split,
  normalise_origin, is_loopback_host, check_origin, check_host, check,
}

-- An origin of a web page: `http` or `https`, and something after `://`.
abbrev pub IsWeb : String → Type 0
IsWeb o =
    ((rest : String) × (o ≡ append "http" (append "://" rest)))
    ⊎ ((rest : String) × (o ≡ append "https" (append "://" rest)))

abbrev IsOf : String → String → Type 0
IsOf scheme o = (rest : String) × (o ≡ append scheme (append "://" rest))

print_origin-IsOf :
    (scheme default host : String) (port : Option String)
    → IsOf scheme (print_origin scheme default host port)
unfolding print_origin
print_origin-IsOf scheme default host none = (host, refl)
print_origin-IsOf scheme default host (some p) = elim (Bool-cases (str_eq p default)) [
  | inl t ↦ rw (t, print_origin) (host, refl)
  | inr f ↦ rw (f, print_origin) (append host (append ":" p), refl)
]

origin_from-IsOf :
    (scheme default o : String) (parts : Option (String × Option String))
    → origin_from scheme default parts ≡ some o
    → IsOf scheme o
unfolding origin_from
origin_from-IsOf scheme default o none h = absurd (ground (arith, h))
origin_from-IsOf scheme default o (some (host, port)) h = elim (Bool-cases (is_empty host)) [
  | inl t ↦ absurd (ground (arith, t, h))
  | inr f ↦
      let (rest, e) = print_origin-IsOf scheme default host port in
      let same : print_origin scheme default host port ≡ o = ground (arith, f, h) in
      (rest, sym same ∙ e)
]

origin_of_parts-IsOf :
    (scheme default rest o : String) → origin_of_parts scheme default rest ≡ some o → IsOf scheme o
unfolding origin_of_parts
origin_of_parts-IsOf scheme default rest o h =
    elim (Bool-cases (is_empty rest || not (all_chars is_plain rest))) [
      | inl t ↦ absurd (ground (arith, t, h))
      | inr f ↦ origin_from-IsOf scheme default o (split_host_port (to_ascii_lowercase rest)) (
          subst
            (λ b.
              (if b
                then none
                else origin_from scheme default (split_host_port (to_ascii_lowercase rest)))
              ≡ some o)
            f h)
    ]

origin_of_scheme-IsWeb :
    (scheme rest o : String) → origin_of_scheme scheme rest (default_port scheme) ≡ some o → IsWeb o
unfolding origin_of_scheme
origin_of_scheme-IsWeb scheme rest o h = elim (Bool-cases (str_eq scheme "http")) [
  | inl t ↦ inl (
      subst (λ x. IsOf x o) ((eq_iff scheme "http").0 t)
        (origin_of_parts-IsOf scheme "80" rest o (ground (arith, t, h))))
  | inr f ↦ elim (Bool-cases (str_eq scheme "https")) [
    | inl t ↦ inr (
        subst (λ x. IsOf x o) ((eq_iff scheme "https").0 t)
          (origin_of_parts-IsOf scheme "443" rest o (ground (arith, f, t, h))))
    | inr g ↦ absurd (ground (arith, f, g, h))
  ]
]

origin_of_split-IsWeb :
    (o : String) (split : Option (String × String)) → origin_of_split split ≡ some o → IsWeb o
unfolding origin_of_split
origin_of_split-IsWeb o none h = absurd (ground (arith, h))
origin_of_split-IsWeb o (some (scheme, rest)) h =
    origin_of_scheme-IsWeb (to_ascii_lowercase scheme) rest o h

normalise_origin-IsWeb : (s o : String) → normalise_origin s ≡ some o → IsWeb o
unfolding normalise_origin
normalise_origin-IsWeb s o h =
    origin_of_split-IsWeb o (split_at_text "://" (trim_end_matches slash (trim_end (trim_start s))))
      h

-- A `Host` header that names this machine, with or without a port.
abbrev pub IsLoopback : String → Type 0
IsLoopback host =
    (name : String) × (port : Option String) × (split_host_port (to_ascii_lowercase host)
      ≡ some (name, port))
    × ((name ≡ "localhost") ⊎ ((name ≡ "127.0.0.1") ⊎ (name ≡ "[::1]")))

loopback_name-cases :
    (name : String)
    → loopback_name name ≡ true
    → (name ≡ "localhost") ⊎ ((name ≡ "127.0.0.1") ⊎ (name ≡ "[::1]"))
loopback_name-cases name h = elim (Bool-cases (str_eq name "localhost")) [
  | inl t ↦ inl ((eq_iff name "localhost").0 t)
  | inr f ↦ elim (Bool-cases (str_eq name "127.0.0.1")) [
    | inl t ↦ inr (inl ((eq_iff name "127.0.0.1").0 t))
    | inr g ↦ inr (inr ((eq_iff name "[::1]").0 (ground (arith, f, g, h))))
  ]
]

is_loopback_host-IsLoopback : (host : String) → is_loopback_host host ≡ true → IsLoopback host
unfolding is_loopback_host
is_loopback_host-IsLoopback host h =
    elim (Option-cases (split_host_port (to_ascii_lowercase host))) [
      | inl n ↦ absurd (ground (arith, n, h))
      | inr ((name, port), e) ↦ (name, port, e, loopback_name-cases name (ground (arith, e, h)))
    ]

check_host-none :
    (peer : Peer) (host : Option String)
    → check_host false peer host ≡ none
    → (peer.is_loopback ≡ true) × IsLoopback (unwrap_or host "")
unfolding check_host
check_host-none peer host h = elim (Bool-cases peer.is_loopback) [
  | inr f ↦ absurd (ground (arith, f, h))
  | inl t ↦ elim (Bool-cases (is_loopback_host (unwrap_or host ""))) [
    | inr f ↦ absurd (ground (arith, t, f, h))
    | inl u ↦ (t, is_loopback_host-IsLoopback (unwrap_or host "") u)
  ]
]

check_origin-IsWeb :
    (header : Option (Option String)) (found : Option String)
    → check_origin header ≡ inr found
    → (header ≡ none) ⊎ ((o : String) × (found ≡ some o) × IsWeb o)
unfolding check_origin
check_origin-IsWeb none found h = inl refl
check_origin-IsWeb (some none) found h = absurd (ground (arith, h))
check_origin-IsWeb (some (some raw)) found h = elim (Option-cases (normalise_origin raw)) [
  | inl n ↦ absurd (ground (arith, n, h))
  | inr (w, f) ↦ inr (w, ground (arith, f, h), normalise_origin-IsWeb raw w f)
]

-- A request that is let through to authentication, where remote callers are not allowed, comes from
-- this machine and names it in `Host`; it has no `Origin` header, or is taken to come from an origin
-- of `http` or `https`, never from an opaque one.
pub check_lem :
    (peer : Peer) (headers : Headers) (info : ConnectionInfo)
    → check false peer headers ≡ inr info
    → (peer.is_loopback ≡ true)
      × IsLoopback (unwrap_or headers.host "")
      × ((headers.origin ≡ none) ⊎ ((o : String) × (info.origin ≡ some o) × IsWeb o))
unfolding check
check_lem peer headers info h = elim (Option-cases (check_host false peer headers.host)) [
  | inr (e, f) ↦ absurd (ground (arith, f, h))
  | inl f ↦ elim (sum-cases (check_origin headers.origin)) [
    | inl (e, g) ↦ absurd (ground (arith, f, g, h))
    | inr (found, g) ↦
        let (local, named) = check_host-none peer headers.host f in
        let same : found ≡ info.origin = ground (arith, f, g, h) in
        (
          local,
          named,
          subst (λ r. (headers.origin ≡ none) ⊎ ((o : String) × (r ≡ some o) × IsWeb o)) same
              (check_origin-IsWeb headers.origin found g),
        )
  ]
]
