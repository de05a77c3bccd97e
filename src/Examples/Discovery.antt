-- ===== src/Examples/Discovery.antt =====
-- Discovery at concrete printers (print-core/src/engine/discovery.rs).
use kiln_print.Prelude.{◌≡◌, refl, String, some, List, [], ◌∷◌}
use kiln_print.Error.{Result, ok, err, internal}
use kiln_print.Printer.{Printer}
use kiln_print.Queues.{get}
use kiln_print.Engine.Types.{PrinterEventKind, printer_event}
use kiln_print.Engine.Submit.Types.{by_name}
use kiln_print.Engine.Discovery.{
  PrinterCache, refresh, status_differs, PrinterState-discrete, conditions-discrete,
}
use kiln_print.Engine.Discovery.Resolve.{Selects, resolve_printer, resolve_printer-Selects}
use kiln_print.Examples.Submit.{zebra}

abbrev office : Printer
office = record zebra { id = "tcp-2"; name = "Office"; provider = "tcp" }

abbrev cache : PrinterCache
cache = record { by_id = ("mock-1", zebra) ∷ ("tcp-2", office) ∷ []; last_refresh = some 5 }

-- The provider of `zebra` finds nothing any more, that of `office` fails.
abbrev answers : List (String × Result (List Printer))
answers = ("mock", ok []) ∷ ("tcp", err internal) ∷ []

unplugged : (refresh answers 9 cache).1 ≡ printer_event PrinterEventKind.disconnected zebra ∷ []
unfolding refresh get status_differs PrinterState-discrete conditions-discrete
unplugged = refl

resolve_printer-Selects_example :
    Selects (resolve_printer 2 answers 9 (by_name "OFFICE") cache).0 (by_name "OFFICE") office
unfolding resolve_printer
resolve_printer-Selects_example =
    resolve_printer-Selects 2 9 answers (by_name "OFFICE") cache office refl
