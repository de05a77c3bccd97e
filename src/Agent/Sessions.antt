-- ===== src/Agent/Sessions.antt =====
-- Live sessions and the clients that `clients.list` reports: agent/src/api/sessions.rs, and
-- `list_clients` of agent/src/api/service.rs.
use kiln_print.Prelude.{
  ℕ, String, Bool, true, false, not, Option, none, some, List, [], ◌∷◌, Map, insert, lookup, remove,
  values, keep, map, leb, str_eq, if◌then◌else◌,
}
use kiln_print.Error.{Result, ok, ◌>>=◌}
use kiln_print.Agent.Security.{
  Permission, all_permissions, Principal, PrincipalKind, admin, client, require, clients_read,
}
use kiln_print.Agent.Token.{ClientConfig, SecurityConfig, admin_client_id, all_printers}

pub record SessionInfo : Type 0 where
  pub session_id : ℕ
  pub client_id : String
  pub client_name : String
  pub reported_name : String
  pub reported_version : Option String
  pub origin : Option String
  pub user_agent : Option String
  pub protocol_version : ℕ
  pub connected_at : ℕ
  pub last_activity : ℕ

abbrev pub SessionRegistry : Type 0
SessionRegistry = Map SessionInfo

unfoldable pub open_session : SessionInfo → SessionRegistry → SessionRegistry
open_session info sessions = insert info.session_id info sessions

-- `now` is the clock's reading.
unfoldable pub touch : ℕ → ℕ → SessionRegistry → SessionRegistry
touch now id sessions = elim (lookup id sessions) [
  | none ↦ sessions
  | some info ↦ insert id (record info { last_activity = now }) sessions
]

unfoldable pub close_session : ℕ → SessionRegistry → SessionRegistry × Option SessionInfo
close_session id sessions = (remove id sessions, lookup id sessions)

-- A stable sort, the oldest connection first.
unfoldable pub insert_session : SessionInfo → List SessionInfo → List SessionInfo
insert_session i [] = i ∷ []
insert_session i (k ∷ ks) =
    let rest = insert_session i ks in
    if leb i.connected_at k.connected_at then i ∷ k ∷ ks else k ∷ rest

unfoldable pub sort_sessions : List SessionInfo → List SessionInfo
unfolding insert_session
sort_sessions [] = []
sort_sessions (i ∷ is) = insert_session i (sort_sessions is)

unfoldable pub list_sessions : SessionRegistry → List SessionInfo
unfolding sort_sessions
list_sessions sessions = sort_sessions (values sessions)

pub record ClientSummary : Type 0 where
  pub client_id : String
  pub name : String
  pub kind : PrincipalKind
  pub origins : List String
  pub permissions : List Permission
  pub printers : List String
  pub connected : Bool
  pub sessions : List SessionInfo

abbrev is_empty : List SessionInfo → Bool
is_empty [] = true
is_empty (x ∷ xs) = false

unfoldable pub for_client : List SessionInfo → String → List SessionInfo
for_client sessions id = keep (λ (i : SessionInfo). str_eq i.client_id id) sessions

unfoldable pub admin_summary : List SessionInfo → SecurityConfig → ClientSummary
unfolding for_client
admin_summary sessions security =
    let s = for_client sessions admin_client_id in
    record {
      client_id = admin_client_id;
      name = "Local administrator";
      kind = admin;
      origins = security.admin_origins;
      permissions = all_permissions;
      printers = all_printers;
      connected = not (is_empty s);
      sessions = s;
    }

unfoldable pub client_summary : List SessionInfo → ClientConfig → ClientSummary
unfolding for_client
client_summary sessions c =
    let s = for_client sessions c.id in
    record {
      client_id = c.id;
      name = c.name;
      kind = client;
      origins = c.origins;
      permissions = c.permissions;
      printers = c.printers;
      connected = not (is_empty s);
      sessions = s;
    }

unfoldable pub list_clients :
    SecurityConfig → SessionRegistry → Principal → Result (List ClientSummary)
unfolding admin_summary client_summary list_sessions
list_clients security registry who = do
  allowed ← require who clients_read
  let sessions : List SessionInfo = list_sessions registry
  ok (admin_summary sessions security ∷ map (client_summary sessions) security.clients)
