-- ===== src/Engine/Discovery/Laws.antt =====
-- What the events of a refresh tell (print-core/src/engine/discovery.rs).
use kiln_print.Prelude.{ℕ, ◌≡◌, String, true, none, some, is_some, List, [], ◌∷◌, All, arith}
use kiln_print.Error.{Result}
use kiln_print.Printer.{Printer}
use kiln_print.Queues.{get, put}
use kiln_print.Queues.Laws.{get-put}
use kiln_print.Engine.Types.{PrinterEventKind, EngineEvent, job_event, printer_event}
use kiln_print.Engine.Discovery.{
  PrinterCache, is_in, status_differs, collect, kept, insert_all, refresh,
}

-- Each printer stands under its own id.
abbrev pub IsKeyed : List (String × Printer) → Type 0
IsKeyed m = All (λ (e : String × Printer). e.0 ≡ e.1.id) m

-- What an event says of the snapshots before and after.
abbrev pub Tells : List (String × Printer) → List (String × Printer) → EngineEvent → Type 0
Tells old next (job_event kind j) = Unit {0}
Tells old next (printer_event PrinterEventKind.connected p) = get p.id old ≡ none
Tells old next (printer_event PrinterEventKind.disconnected p) = get p.id next ≡ none
Tells old next (printer_event PrinterEventKind.status_changed p) =
    (q : Printer) × (get p.id old ≡ some q) × (status_differs q p ≡ true)

get-kept :
    (failed : List String) (m : List (String × Printer)) (id : String) (p : Printer)
    → get id m ≡ some p
    → is_in failed p.provider ≡ true
    → get id (kept failed m) ≡ some p
unfolding get kept
get-kept failed [] id p h f = h
get-kept failed ((k, q) ∷ rest) id p h f = ground (arith, get-kept failed rest id p)

known-insert_all :
    (ps : List Printer) (m : List (String × Printer)) (id : String)
    → is_some (get id m) ≡ true
    → is_some (get id (insert_all ps m)) ≡ true
unfolding insert_all
known-insert_all [] m id h = h
known-insert_all (p ∷ ps) m id h =
    known-insert_all ps (put p.id p m) id (ground (arith, get-put p.id id p m))

-- A printer of a provider whose discovery failed is still known after the refresh.
pub refresh_kept :
    (answers : List (String × Result (List Printer))) (now : ℕ) (cache : PrinterCache) (id : String)
    {p : Printer}
    → get id cache.by_id ≡ some p
    → is_in (collect answers).1 p.provider ≡ true
    → is_some (get id (refresh answers now cache).0.by_id) ≡ true
unfolding refresh
refresh_kept answers now cache id {p} found failed =
    let e : get id (kept (collect answers).1 cache.by_id) ≡ some p =
      get-kept (collect answers).1 cache.by_id id p found failed in
    known-insert_all (collect answers).0 (kept (collect answers).1 cache.by_id) id
      (ground (arith, e))
