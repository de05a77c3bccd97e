-- ===== src/Engine/Discovery.antt =====
-- print-core/src/engine/discovery.rs: the cache of printers, and the events of a refresh. The cache
-- is a map by printer id; the code's `BTreeMap` also orders the events by id.
pub mod Laws
pub mod Resolve
use kiln_print.Prelude.{
  ℕ, ◌-◌, String, String-discrete, Bool, true, false, not, ◌||◌, ite, Option, none, some, is_some,
  List, [], ◌∷◌, ◌++◌, any, leb, str_eq, if◌then◌else◌,
}
use kiln_print.Error.{Result, ok, err}
use kiln_print.Printer.{Printer, PrinterState, PrinterCondition}
use kiln_print.Queues.{get, put}
use kiln_print.Engine.Types.{PrinterEventKind, EngineEvent, printer_event}

unfoldable pub PrinterState-discrete : Discrete PrinterState
PrinterState-discrete = hlevel

unfoldable pub PrinterCondition-discrete : Discrete PrinterCondition
PrinterCondition-discrete = hlevel

unfoldable pub conditions-discrete : Discrete (List PrinterCondition)
conditions-discrete = hlevel (PrinterCondition-discrete)

abbrev bool_eq : Bool → Bool → Bool
bool_eq true b = b
bool_eq false b = not b

-- True when anything a client would care about changed between two snapshots.
unfoldable pub status_differs : Printer → Printer → Bool
status_differs p q =
    not (bool_eq p.online q.online)
    || ite (PrinterState-discrete p.status q.status) false true
    || ite (conditions-discrete p.conditions q.conditions) false true
    || not (bool_eq p.default q.default)

pub record PrinterCache : Type 0 where
  pub by_id : List (String × Printer)
  pub last_refresh : Option ℕ

abbrev pub is_in : List String → String → Bool
is_in ids id = any (λ k. str_eq k id) ids

-- The providers' answers: the printers found, and the providers that failed.
unfoldable pub collect : List (String × Result (List Printer)) → List Printer × List String
collect [] = ([], [])
collect ((id, ok printers) ∷ rest) = let (ps, failed) = collect rest in (printers ++ ps, failed)
collect ((id, err e) ∷ rest) = let (ps, failed) = collect rest in (ps, id ∷ failed)

-- The previous snapshot of the providers that failed.
unfoldable pub kept : List String → List (String × Printer) → List (String × Printer)
kept failed [] = []
kept failed ((id, p) ∷ rest) =
    let others = kept failed rest in if is_in failed p.provider then (id, p) ∷ others else others

unfoldable pub insert_all : List Printer → List (String × Printer) → List (String × Printer)
insert_all [] m = m
insert_all (p ∷ ps) m = insert_all ps (put p.id p m)

-- What is sent of a printer of the new snapshot, given what the old one has under its id.
abbrev pub news : Option Printer → Printer → List EngineEvent
news none p = printer_event PrinterEventKind.connected p ∷ []
news (some old) p =
    if status_differs old p then printer_event PrinterEventKind.status_changed p ∷ [] else []

unfoldable pub arrivals : List (String × Printer) → List (String × Printer) → List EngineEvent
arrivals old [] = []
arrivals old ((id, p) ∷ rest) = news (get id old) p ++ arrivals old rest

abbrev pub lost : Option Printer → Printer → List EngineEvent
lost none p = printer_event PrinterEventKind.disconnected p ∷ []
lost (some q) p = []

unfoldable pub departures : List (String × Printer) → List (String × Printer) → List EngineEvent
departures next [] = []
departures next ((id, p) ∷ rest) = lost (get id next) p ++ departures next rest

abbrev pub next_snapshot :
    List (String × Result (List Printer)) → List (String × Printer) → List (String × Printer)
next_snapshot answers old =
    let (discovered, failed) = collect answers in insert_all discovered (kept failed old)

-- The first refresh sends no event.
unfoldable pub refresh :
    List (String × Result (List Printer)) → ℕ → PrinterCache → PrinterCache × List EngineEvent
unfolding collect kept insert_all arrivals departures
refresh answers now cache =
    let next = next_snapshot answers cache.by_id in
    (
      record { by_id = next; last_refresh = some now },
      if is_some cache.last_refresh
          then arrivals cache.by_id next ++ departures next cache.by_id
          else [],
    )

-- A refresh unless another one happened within the gap.
unfoldable pub refresh_if_stale :
    ℕ → List (String × Result (List Printer)) → ℕ → PrinterCache → PrinterCache × List EngineEvent
unfolding refresh
refresh_if_stale min_gap answers now cache = elim cache.last_refresh [
  | none ↦ refresh answers now cache
  | some t ↦ if leb min_gap (now - t) then refresh answers now cache else (cache, [])
]
