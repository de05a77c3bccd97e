-- ===== src/Agent/Token.antt =====
-- Token authentication: agent/src/security/token.rs, and the configured clients of
-- agent/src/config.rs. `H` is the type of a hash; `hash_token`, the comparison `ct_eq` and the
-- decoding of a configured hash are libraries'.
pub mod Trust
use kiln_print.Prelude.{
  ℕ, ◌⊎◌, inl, inr, String, Bool, true, false, Option, none, some, List, [], ◌∷◌, ◌++◌, any, str_eq,
  if◌then◌else◌,
}
use kiln_print.Error
use kiln_print.Error.{
  PrintError, Result, ok, err, ok_or, text, Message, client_not_trusted, access_denied, ◌>>=◌,
}
use kiln_print.Agent.Security.{
  Permission, all_permissions, Principal, PrincipalKind, admin, client, printers_read, print,
  jobs_read, jobs_cancel, queue_read,
}
use kiln_print.Agent.Origin.{ConnectionInfo, normalise_origin}

pub record ClientConfig : Type 0 where
  pub id : String
  pub name : String
  pub token_sha256 : String
  pub origins : List String
  pub permissions : List Permission
  pub printers : List String

pub record SecurityConfig : Type 0 where
  pub admin_origins : List String
  pub clients : List ClientConfig

abbrev pub default_client_permissions : List Permission
default_client_permissions = printers_read ∷ print ∷ jobs_read ∷ jobs_cancel ∷ queue_read ∷ []

abbrev pub all_printers : List String
all_printers = "*" ∷ []

abbrev pub admin_client_id : String
admin_client_id = "local-admin"

pub record Entry (H : Type 0) : Type 0 where
  pub hash : H
  pub principal : Principal
  pub origins : List String

abbrev cons_some : Option String → List String → List String
cons_some none os = os
cons_some (some o) os = o ∷ os

unfoldable pub normalise_all : List String → List String
unfolding normalise_origin
normalise_all [] = []
normalise_all (o ∷ os) = cons_some (normalise_origin o) (normalise_all os)

abbrev pub admin_principal : Principal
admin_principal = record {
  client_id = admin_client_id;
  name = "Local administrator";
  kind = admin;
  permissions = all_permissions;
  printers = all_printers;
  origin = none;
}

abbrev pub client_principal : ClientConfig → Principal
client_principal c = record {
  client_id = c.id;
  name = c.name;
  kind = client;
  permissions = c.permissions;
  printers = c.printers;
  origin = none;
}

abbrev pub untrusted : PrintError
unfolding Error.new
untrusted =
    Error.new client_not_trusted
      (text "the presented credentials are not trusted by this agent" ∷ [])

unfoldable pub foreign_origin : String → PrintError
unfolding Error.new
foreign_origin o =
    Error.new access_denied (text "origin " ∷ text o ∷ text " is not allowed for this client" ∷ [])

-- A browser's origin must be one of the entry's; a native caller has none.
unfoldable pub admit : {H : Type 0} → Entry H → Option String → Result Principal
unfolding foreign_origin
admit e none = ok (record e.principal { origin = none })
admit e (some o) =
    if any (λ x. str_eq x o) e.origins
    then ok (record e.principal { origin = some o })
    else err (foreign_origin o)

module _ {H : Type 0} (hash_token : String → H) (ct_eq : H → H → Bool)
    (decode : String → Option H) where
  unfoldable pub client_entries : List ClientConfig → Message ⊎ List (Entry H)
  unfolding normalise_all
  client_entries [] = inr []
  client_entries (c ∷ cs) = elim (decode c.token_sha256) [
    | none ↦ inl (text "client '" ∷ text c.id ∷ text "': invalid token_sha256" ∷ [])
    | some h ↦ elim (client_entries cs) [
      | inl e ↦ inl e
      | inr es ↦ inr (
          record { hash = h; principal = client_principal c; origins = normalise_all c.origins }
          ∷ es)
    ]
  ]

  abbrev pub admin_entry : String → SecurityConfig → Entry H
  unfolding normalise_all
  admin_entry token security = record {
    hash = hash_token token;
    principal = admin_principal;
    origins = normalise_all security.admin_origins;
  }

  unfoldable pub new : Option String → SecurityConfig → Message ⊎ List (Entry H)
  unfolding client_entries normalise_all
  new none security = client_entries security.clients
  new (some token) security = elim (client_entries security.clients) [
    | inl e ↦ inl e
    | inr es ↦ inr (admin_entry token security ∷ es)
  ]

  -- Every entry is compared; the last that matches is the caller's.
  unfoldable pub match_entry : H → Option (Entry H) → List (Entry H) → Option (Entry H)
  match_entry presented matched [] = matched
  match_entry presented matched (e ∷ es) =
      match_entry presented (if ct_eq e.hash presented then some e else matched) es

  unfoldable pub authenticate : List (Entry H) → String → ConnectionInfo → Result Principal
  unfolding match_entry admit
  authenticate entries token connection = do
    e ← ok_or (match_entry (hash_token token) none entries) untrusted
    admit e connection.origin

  unfoldable pub origin_known : List (Entry H) → String → Bool
  origin_known entries origin = any (λ e. any (λ o. str_eq o origin) e.origins) entries
