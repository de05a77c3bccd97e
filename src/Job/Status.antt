-- ===== src/Job/Status.antt =====
-- The lifecycle status of a job and its allowed transitions.
use kiln_print.Prelude.{
  ℕ, String, Bool, true, false, Option, none, some, ◌==◌, str_eq, if◌then◌else◌,
}

pub data JobStatus : Type 0 where
  received validating queued printing completed failed cancelled : JobStatus

abbrev pub is_terminal : JobStatus → Bool
is_terminal completed = true
is_terminal failed = true
is_terminal cancelled = true
is_terminal _ = false

-- `a as u8`.
abbrev pub as_u8 : JobStatus → ℕ
as_u8 received = 0
as_u8 validating = 1
as_u8 queued = 2
as_u8 printing = 3
as_u8 completed = 4
as_u8 failed = 5
as_u8 cancelled = 6

unfoldable pub can_transition_to : JobStatus → JobStatus → Bool
can_transition_to completed _ = false
can_transition_to failed _ = false
can_transition_to cancelled _ = false
can_transition_to _ failed = true
can_transition_to _ cancelled = true
can_transition_to received validating = true
can_transition_to validating queued = true
can_transition_to queued printing = true
can_transition_to queued completed = true
can_transition_to printing completed = true
can_transition_to a b = as_u8 a == as_u8 b

unfoldable pub as_str : JobStatus → String
as_str received = "RECEIVED"
as_str validating = "VALIDATING"
as_str queued = "QUEUED"
as_str printing = "PRINTING"
as_str completed = "COMPLETED"
as_str failed = "FAILED"
as_str cancelled = "CANCELLED"

unfoldable pub parse : String → Option JobStatus
parse value =
    if str_eq value "RECEIVED"
    then some received
    else if str_eq value "VALIDATING"
    then some validating
    else if str_eq value "QUEUED"
    then some queued
    else if str_eq value "PRINTING"
    then some printing
    else if str_eq value "COMPLETED"
    then some completed
    else if str_eq value "FAILED"
    then some failed
    else if str_eq value "CANCELLED"
    then some cancelled
    else none
