-- ===== src/Agent/Origin.antt =====
-- The checks before authentication: agent/src/security/origin.rs. A peer address is read by whether
-- it is a loopback address; a header by what `to_str` answers.
pub mod Laws
use kiln_print.Prelude.{
  ℕ, ◌⊎◌, inl, inr, String, Bool, true, false, not, ◌&&◌, ◌||◌, Option, none, some, unwrap_or, ◌==◌,
  str_eq, if◌then◌else◌, split_once, strip_prefix, split_at_text, rsplit_once, append,
  trim_end_matches, parse_uint, to_ascii_lowercase,
}
use kiln_print.Engine.Submit.Checks.{all_chars}
use kiln_print.Engine.Submit.JobNames.{trim_start, trim_end, take_chars}

abbrev colon : ℕ
colon = 58

abbrev pub slash : ℕ
slash = 47

abbrev close_bracket : ℕ
close_bracket = 93

-- `host[:port]`, with the port checked.
abbrev pub check_port : String × Option String → Option (String × Option String)
unfolding parse_uint
check_port (host, none) = some (host, none)
check_port (host, some p) = elim (parse_uint 65535 p) [ none ↦ none | some n ↦ some (host, some p) ]

-- What follows a bracketed literal.
unfoldable pub after_bracket : String → String → Option (String × Option String)
unfolding strip_prefix parse_uint
after_bracket host String.[] = some (host, none)
after_bracket host tail = elim (strip_prefix ":" tail) [
  | none ↦ none
  | some p ↦ check_port (host, some p)
]

unfoldable pub bracketed : String → Option (String × Option String)
unfolding split_once after_bracket append
bracketed rest = elim (split_once close_bracket rest) [
  | none ↦ none
  | some (literal, tail) ↦ after_bracket (append "[" (append literal "]")) tail
]

unfoldable pub unbracketed : String → Option (String × Option String)
unfolding rsplit_once parse_uint
unbracketed value = elim (rsplit_once colon value) [
  | none ↦ some (value, none)
  | some (h, p) ↦ check_port (h, some p)
]

unfoldable pub split_host_port : String → Option (String × Option String)
unfolding strip_prefix bracketed unbracketed
split_host_port value = elim (strip_prefix "[" value) [
  | none ↦ unbracketed value
  | some rest ↦ bracketed rest
]

abbrev pub default_port : String → Option String
default_port scheme =
    if str_eq scheme "http" then some "80" else if str_eq scheme "https" then some "443" else none

-- None of `/`, `?`, `#`, `@` and the space.
abbrev pub is_plain : ℕ → Bool
is_plain c = not ((c == slash) || (c == 63) || (c == 35) || (c == 64) || (c == 32))

abbrev pub is_empty : String → Bool
is_empty String.[] = true
is_empty (String.◌∷◌ c s) = false

unfoldable pub print_origin : String → String → String → Option String → String
unfolding append
print_origin scheme default host none = append scheme (append "://" host)
print_origin scheme default host (some p) =
    if str_eq p default
    then append scheme (append "://" host)
    else append scheme (append "://" (append host (append ":" p)))

unfoldable pub origin_from : String → String → Option (String × Option String) → Option String
unfolding print_origin
origin_from scheme default none = none
origin_from scheme default (some (host, port)) =
    if is_empty host then none else some (print_origin scheme default host port)

unfoldable pub origin_of_parts : String → String → String → Option String
unfolding split_host_port to_ascii_lowercase origin_from
origin_of_parts scheme default rest =
    if is_empty rest || not (all_chars is_plain rest)
    then none
    else origin_from scheme default (split_host_port (to_ascii_lowercase rest))

unfoldable pub origin_of_scheme : String → String → Option String → Option String
unfolding origin_of_parts
origin_of_scheme scheme rest none = none
origin_of_scheme scheme rest (some default) = origin_of_parts scheme default rest

unfoldable pub origin_of_split : Option (String × String) → Option String
unfolding to_ascii_lowercase origin_of_scheme
origin_of_split none = none
origin_of_split (some (scheme, rest)) =
    let lower = to_ascii_lowercase scheme in origin_of_scheme lower rest (default_port lower)

unfoldable pub normalise_origin : String → Option String
unfolding trim_start trim_end trim_end_matches split_at_text origin_of_split
normalise_origin origin =
    origin_of_split (split_at_text "://" (trim_end_matches slash (trim_end (trim_start origin))))

abbrev pub loopback_name : String → Bool
loopback_name name = str_eq name "localhost" || str_eq name "127.0.0.1" || str_eq name "[::1]"

unfoldable pub is_loopback_host : String → Bool
unfolding split_host_port to_ascii_lowercase
is_loopback_host host = elim (split_host_port (to_ascii_lowercase host)) [
  | none ↦ false
  | some (name, port) ↦ loopback_name name
]

-- A request before authentication, and what is known of an accepted connection.
pub record Headers : Type 0 where
  pub host : Option String
  pub origin : Option (Option String)
  pub user_agent : Option String

pub record Peer : Type 0 where
  pub address : String
  pub is_loopback : Bool

pub record ConnectionInfo : Type 0 where
  pub peer : Peer
  pub origin : Option String
  pub user_agent : Option String

pub data Rejected : Type 0 where
  forbidden : String → Rejected

-- The `Origin` header: absent, not a text, or a text.
unfoldable pub check_origin : Option (Option String) → Rejected ⊎ Option String
unfolding normalise_origin
check_origin none = inr none
check_origin (some none) = inl (forbidden "invalid Origin header")
check_origin (some (some raw)) = elim (normalise_origin raw) [
  | none ↦ inl (forbidden "origin not allowed")
  | some o ↦ inr (some o)
]

-- The name that the peer's address and its `Host` header must pass.
unfoldable pub check_host : Bool → Peer → Option String → Option Rejected
unfolding is_loopback_host
check_host true peer host = none
check_host false peer host =
    if not peer.is_loopback
    then some (forbidden "remote connections are disabled")
    else if not (is_loopback_host (unwrap_or host ""))
    then some (forbidden "invalid Host header")
    else none

abbrev truncated : Option String → Option String
unfolding take_chars
truncated none = none
truncated (some s) = some (take_chars 200 s)

unfoldable pub check : Bool → Peer → Headers → Rejected ⊎ ConnectionInfo
unfolding check_host check_origin take_chars
check allow_non_loopback peer headers = elim (check_host allow_non_loopback peer headers.host) [
  | some e ↦ inl e
  | none ↦ elim (check_origin headers.origin) [
    | inl e ↦ inl e
    | inr o ↦ inr (record { peer = peer; origin = o; user_agent = truncated headers.user_agent })
  ]
]
