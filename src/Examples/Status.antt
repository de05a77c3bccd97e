-- ===== src/Examples/Status.antt =====
-- Flags and device answers at concrete words (providers/windows/src/status.rs and
-- providers/tcp/src/status.rs).
use kiln_print.Prelude.{◌≡◌, refl, none, some, List, [], ◌∷◌}
use kiln_print.Printer.{PrinterCondition, PrinterState, ConnectionType, paper_low}
use kiln_print.Engine.Types.{ProviderJobState}
use kiln_print.Status.Windows.{job_state, resolve_job_state, job_flag_names, printer_state}
use kiln_print.Status.Windows.Connection.{classify_connection, guess_language}
use kiln_print.Status.Windows.Laws.{resolve_job_state-printed}
use kiln_print.Status.Tcp.{parse_escpos_status, parse_zpl_host_status}

deleted_after_printing : job_state 132 none ≡ ProviderJobState.printed
unfolding job_state
deleted_after_printing = refl

names : job_flag_names 17 ≡ "PAUSED" ∷ "PRINTING" ∷ []
unfolding job_flag_names
names = refl

-- It was printed, and is now being deleted.
resolve_job_state-printed_example :
    resolve_job_state (some (4, none)) 128 ≡ ProviderJobState.printed
resolve_job_state-printed_example = resolve_job_state-printed (some (4, none)) 128 refl

work_offline : (printer_state 0 0x400).0 ≡ PrinterState.offline
unfolding printer_state
work_offline = refl

abbrev found : List PrinterCondition
found = paper_low ∷ PrinterCondition.paused ∷ paper_low ∷ []

all_is_well :
    parse_escpos_status 0x12 0x12 0x12
    ≡ some (record { state = PrinterState.ready; conditions = [] })
unfolding parse_escpos_status
all_is_well = refl

no_status : parse_escpos_status 0xFF 0x12 0x12 ≡ none
unfolding parse_escpos_status
no_status = refl

garbage : parse_zpl_host_status "garbage" ≡ none
unfolding parse_zpl_host_status
garbage = refl

by_address : classify_connection "Office" "192.168.1.9_1" "HP" 0 ≡ ConnectionType.network
unfolding classify_connection
by_address = refl

zebra_epl : guess_language "Zebra" "ZDesigner GK420d (EPL)" ≡ some "EPL"
unfolding guess_language
zebra_epl = refl
