-- ===== src/Agent/Security.antt =====
-- Permissions and authenticated callers: agent/src/security/mod.rs.
use kiln_print.Prelude.{
  ℕ, ◌≡◌, inl, inr, String, Bool, true, false, Option, List, [], ◌∷◌, any, arith, ◌==◌, str_eq,
  if◌then◌else◌, Bool-cases,
}
use kiln_print.Error
use kiln_print.Error.{PrintError, Result, ok, err, text, access_denied}
use kiln_print.Engine.Submit.Types.{PrinterScope, everywhere, only, Submitter}

pub data Permission : Type 0 where
  printers_read print jobs_read jobs_read_all jobs_cancel jobs_cancel_all : Permission
  queue_read clients_read : Permission

abbrev pub all_permissions : List Permission
all_permissions =
    printers_read ∷ print ∷ jobs_read ∷ jobs_read_all ∷ jobs_cancel ∷ jobs_cancel_all ∷ queue_read
    ∷ clients_read ∷ []

-- The derived equality compares positions in the declaration.
abbrev pub position : Permission → ℕ
position printers_read = 0
position print = 1
position jobs_read = 2
position jobs_read_all = 3
position jobs_cancel = 4
position jobs_cancel_all = 5
position queue_read = 6
position clients_read = 7

pub data PrincipalKind : Type 0 where
  admin client : PrincipalKind

-- The permissions are a set: the list of its members.
pub record Principal : Type 0 where
  pub client_id : String
  pub name : String
  pub kind : PrincipalKind
  pub permissions : List Permission
  pub printers : List String
  pub origin : Option String

unfoldable pub has : Principal → Permission → Bool
has who permission = any (λ p. position p == position permission) who.permissions

unfoldable pub permission_name : Permission → String
permission_name printers_read = "printers.read"
permission_name print = "print"
permission_name jobs_read = "jobs.read"
permission_name jobs_read_all = "jobs.read.all"
permission_name jobs_cancel = "jobs.cancel"
permission_name jobs_cancel_all = "jobs.cancel.all"
permission_name queue_read = "queue.read"
permission_name clients_read = "clients.read"

unfoldable pub denied : Permission → PrintError
unfolding permission_name Error.new
denied permission =
    Error.new access_denied (
      text "this client lacks the '" ∷ text (permission_name permission) ∷ text "' permission" ∷ [])

unfoldable pub require : Principal → Permission → Result (Unit {0})
require who permission = if has who permission then ok tt else err (denied permission)

unfoldable pub printer_scope : Principal → PrinterScope
printer_scope who = if any (λ p. str_eq p "*") who.printers then everywhere else only who.printers

unfoldable pub submitter : Principal → Submitter
unfolding printer_scope
submitter who = record { client_id = who.client_id; printers = printer_scope who }

pub require-ok :
    (who : Principal) (permission : Permission) (u : Unit {0})
    → require who permission ≡ ok u
    → has who permission ≡ true
unfolding require
require-ok who permission u h = elim (Bool-cases (has who permission)) [
  | inl t ↦ t
  | inr f ↦ absurd (ground (arith, f, h))
]

pub require-denied :
    (who : Principal) (permission : Permission)
    → has who permission ≡ false
    → require who permission ≡ err (denied permission)
unfolding require
require-denied who permission f = ground (arith, f)
