-- ===== src/Status/Windows.antt =====
-- The spooler's flags: providers/windows/src/status.rs.
pub mod Connection
pub mod Laws
use Prim.Native.Nat.{bit_or, bit_and}
use kiln_print.Prelude.{
  ℕ, String, Bool, true, false, not, ◌&&◌, ◌||◌, Option, none, some, List, [], ◌∷◌, ◌++◌, any, keep,
  map, ◌==◌, if◌then◌else◌,
}
use kiln_print.Error.{paper_out, printer_offline, spooler_error, printer_busy}
use kiln_print.Error
use kiln_print.Printer.{PrinterCondition, PrinterState}
use kiln_print.Engine.Types.{ProviderJobState}
use kiln_print.Status.Order.{contains, sort_conditions}
use kiln_print.Status.Flags.{is_set}

-- `mod job`.
abbrev job_paused : ℕ
job_paused = 0x1

abbrev job_error : ℕ
job_error = 0x2

abbrev job_deleting : ℕ
job_deleting = 0x4

abbrev job_spooling : ℕ
job_spooling = 0x8

abbrev job_printing : ℕ
job_printing = 0x10

abbrev job_offline : ℕ
job_offline = 0x20

abbrev job_paper_out : ℕ
job_paper_out = 0x40

abbrev job_printed : ℕ
job_printed = 0x80

abbrev job_deleted : ℕ
job_deleted = 0x100

abbrev job_blocked : ℕ
job_blocked = 0x200

abbrev job_user_intervention : ℕ
job_user_intervention = 0x400

abbrev job_restart : ℕ
job_restart = 0x800

abbrev job_complete : ℕ
job_complete = 0x1000

abbrev job_retained : ℕ
job_retained = 0x2000

abbrev pub printed_mask : ℕ
printed_mask = bit_or job_printed job_complete

abbrev pub deleted_mask : ℕ
deleted_mask = bit_or job_deleting job_deleted

abbrev problem_mask : ℕ
problem_mask = bit_or (bit_or job_error job_user_intervention) job_blocked

unfoldable pub job_state : ℕ → Option String → ProviderJobState
job_state flags status_text =
    let printed = is_set flags printed_mask in
    if is_set flags deleted_mask
    then if printed then ProviderJobState.printed else ProviderJobState.cancelled
    else if printed
    then ProviderJobState.printed
    else if is_set flags job_paper_out
    then ProviderJobState.blocked Error.paper_out status_text
    else if is_set flags job_offline
    then ProviderJobState.blocked printer_offline status_text
    else if is_set flags problem_mask
    then ProviderJobState.blocked spooler_error status_text
    else if is_set flags job_paused
    then ProviderJobState.blocked printer_busy status_text
    else if is_set flags job_printing
    then ProviderJobState.printing
    else ProviderJobState.pending

unfoldable pub resolve_job_state : Option (ℕ × Option String) → ℕ → ProviderJobState
unfolding job_state
resolve_job_state (some (flags, text)) observed =
    job_state (bit_or flags (bit_and observed printed_mask)) text
resolve_job_state none observed =
    if is_set observed printed_mask
    then ProviderJobState.printed
    else if is_set observed deleted_mask
    then ProviderJobState.cancelled
    else ProviderJobState.gone

abbrev flag_names : List (ℕ × String)
flag_names =
    (job_paused, "PAUSED")
    ∷ (job_error, "ERROR")
    ∷ (job_deleting, "DELETING")
    ∷ (job_spooling, "SPOOLING")
    ∷ (job_printing, "PRINTING")
    ∷ (job_offline, "OFFLINE")
    ∷ (job_paper_out, "PAPER_OUT")
    ∷ (job_printed, "PRINTED")
    ∷ (job_deleted, "DELETED")
    ∷ (job_blocked, "BLOCKED")
    ∷ (job_user_intervention, "USER_INTERVENTION")
    ∷ (job_restart, "RESTART")
    ∷ (job_complete, "SENT_TO_PRINTER")
    ∷ (job_retained, "RETAINED")
    ∷ []

-- Of a table, what stands beside the flags that are set.
unfoldable pub selected : {A : Type 0} → ℕ → List (ℕ × A) → List A
selected {A = A} word table = map (λ (e : ℕ × A). e.1) (keep (λ (e : ℕ × A). is_set word e.0) table)

unfoldable pub job_flag_names : ℕ → List String
unfolding selected
job_flag_names flags = selected flags flag_names

-- `mod printer`, in the order of the table of conditions.
abbrev condition_flags : List (ℕ × PrinterCondition)
condition_flags =
    (0x1, PrinterCondition.paused)
    ∷ (0x2, PrinterCondition.error)
    ∷ (0x4, PrinterCondition.pending_deletion)
    ∷ (0x8, PrinterCondition.paper_jam)
    ∷ (0x10, PrinterCondition.paper_out)
    ∷ (0x20, PrinterCondition.manual_feed)
    ∷ (0x40, PrinterCondition.paper_problem)
    ∷ (bit_or 0x80 0x2000000, PrinterCondition.offline)
    ∷ (0x200, PrinterCondition.busy)
    ∷ (0x800, PrinterCondition.output_bin_full)
    ∷ (0x1000, PrinterCondition.not_available)
    ∷ (0x10000, PrinterCondition.warming_up)
    ∷ (0x20000, PrinterCondition.toner_low)
    ∷ (0x40000, PrinterCondition.no_toner)
    ∷ (0x100000, PrinterCondition.user_intervention)
    ∷ (0x200000, PrinterCondition.out_of_memory)
    ∷ (0x400000, PrinterCondition.door_open)
    ∷ (0x1000000, PrinterCondition.power_save)
    ∷ []

abbrev pub server_unknown : ℕ
server_unknown = 0x800000

-- Printing, processing, busy, and active input or output.
abbrev pub working_mask : ℕ
working_mask = bit_or (bit_or (bit_or 0x400 0x4000) 0x200) 0x100

abbrev attribute_work_offline : ℕ
attribute_work_offline = 0x400

abbrev pub is_unreachable : PrinterCondition → Bool
is_unreachable PrinterCondition.offline = true
is_unreachable PrinterCondition.not_available = true
is_unreachable PrinterCondition.pending_deletion = true
is_unreachable _ = false

abbrev pub is_error : PrinterCondition → Bool
is_error PrinterCondition.error = true
is_error PrinterCondition.paper_jam = true
is_error PrinterCondition.paper_out = true
is_error PrinterCondition.paper_problem = true
is_error PrinterCondition.door_open = true
is_error PrinterCondition.no_toner = true
is_error PrinterCondition.user_intervention = true
is_error PrinterCondition.out_of_memory = true
is_error PrinterCondition.output_bin_full = true
is_error _ = false

unfoldable pub found_conditions : ℕ → ℕ → List PrinterCondition
unfolding selected
found_conditions status attributes =
    let found = selected status condition_flags in
    if is_set attributes attribute_work_offline && not (contains PrinterCondition.offline found)
    then found ++ PrinterCondition.offline ∷ []
    else found

unfoldable pub conditions_of : ℕ → ℕ → List PrinterCondition
unfolding found_conditions sort_conditions
conditions_of status attributes = sort_conditions (found_conditions status attributes)

unfoldable pub state_of : ℕ → List PrinterCondition → PrinterState
state_of status conditions =
    if any is_unreachable conditions
    then PrinterState.offline
    else if is_set status server_unknown
    then PrinterState.unknown
    else if is_set status 0x1
    then PrinterState.paused
    else if any is_error conditions
    then PrinterState.error
    else if is_set status working_mask
    then PrinterState.printing
    else PrinterState.ready

unfoldable pub printer_state : ℕ → ℕ → PrinterState × List PrinterCondition × Bool
unfolding conditions_of state_of
printer_state status attributes =
    let conditions = conditions_of status attributes in
    (state_of status conditions, conditions, not (any is_unreachable conditions))
