-- ===== src/Engine/Discovery/Resolve.antt =====
-- How a request names its printer: `find_printer` and `resolve_printer` of
-- print-core/src/engine/mod.rs.
use kiln_print.Prelude.{
  ℕ, ◌≡◌, ◌∙◌, ap, ◌⊎◌, String, Bool, Bool-cases, Memᴰ, true, false, Option, none, some, inl, inr,
  List, [], ◌∷◌, All, arith, find, find-holds, find-none, str_eq, eq_iff, Option-cases,
}
use kiln_print.Error.{PrintError, Result, ok, ok_or, printer_not_found_error, with_printer}
use kiln_print.Printer.{Printer}
use kiln_print.Queues.{get}
use kiln_print.Engine.Submit.Types.{PrinterSelector, by_id, by_name}
use kiln_print.Engine.Submit.Checks.{eq_ignore_ascii_case}
use kiln_print.Engine.Discovery.{PrinterCache, refresh_if_stale}

abbrev pub printers : List (String × Printer) → List Printer
printers [] = []
printers ((id, p) ∷ rest) = p ∷ printers rest

-- `Option::or_else`.
abbrev or_else : Option Printer → Option Printer → Option Printer
or_else none o = o
or_else (some p) o = some p

unfoldable pub find_printer : PrinterCache → PrinterSelector → Option Printer
find_printer cache (by_id id) = get id cache.by_id
find_printer cache (by_name name) =
    or_else (find (λ p. str_eq p.name name) (printers cache.by_id))
      (find (λ p. eq_ignore_ascii_case p.name name) (printers cache.by_id))

abbrev pub unknown : PrinterSelector → PrintError
unknown (by_id id) = with_printer (printer_not_found_error id) id
unknown (by_name name) = printer_not_found_error name

-- An unknown printer is looked for once more after a refresh.
unfoldable pub resolve_printer :
    ℕ
    → List (String × Result (List Printer))
    → ℕ
    → PrinterSelector
    → PrinterCache
    → PrinterCache × Result Printer
unfolding find_printer refresh_if_stale
resolve_printer min_gap answers now selector cache = elim (find_printer cache selector) [
  | some p ↦ (cache, ok p)
  | none ↦
      let cache' = (refresh_if_stale min_gap answers now cache).0 in
      (cache', ok_or (find_printer cache' selector) (unknown selector))
]

-- What a selector may find: a name is matched exactly, and without regard to case only if no printer
-- bears it exactly.
abbrev pub Selects : PrinterCache → PrinterSelector → Printer → Type 0
Selects cache (by_id id) p = get id cache.by_id ≡ some p
Selects cache (by_name name) p =
    Memᴰ p (printers cache.by_id)
    × ((p.name ≡ name)
        ⊎ (All (λ (q : Printer). str_eq q.name name ≡ false) (printers cache.by_id)
            × (eq_ignore_ascii_case p.name name ≡ true)))

find-Mem : (t : Printer → Bool) (ps : List Printer) (p : Printer) → find t ps ≡ some p → Memᴰ p ps
find-Mem t [] p h = absurd (ground (arith, h))
find-Mem t (q ∷ ps) p h = elim (Bool-cases (t q)) [
  | inl y ↦ let same : p ≡ q = ground (arith, y, h) in Memᴰ.head same
  | inr n ↦
      let later : find t ps ≡ some p = ground (arith, n, h) in Memᴰ.tail (find-Mem t ps p later)
]

find_printer-Selects :
    (cache : PrinterCache) (selector : PrinterSelector) (p : Printer)
    → find_printer cache selector ≡ some p
    → Selects cache selector p
unfolding find_printer
find_printer-Selects cache (by_id id) p h = h
find_printer-Selects cache (by_name name) p h =
    elim (Option-cases (find (λ q. str_eq q.name name) (printers cache.by_id))) [
      | inl e ↦
          let ci : Printer → Bool = λ q. eq_ignore_ascii_case q.name name in
          let there : find ci (printers cache.by_id) ≡ some p = ground (arith, e, h) in
          (
            find-Mem ci (printers cache.by_id) p there,
            inr (
              find-none (λ q. str_eq q.name name) (printers cache.by_id) e,
              find-holds ci (printers cache.by_id) p there,
            ),
          )
      | inr (q, e) ↦
          let exact : Printer → Bool = λ r. str_eq r.name name in
          let same : q ≡ p = ground (arith, e, h) in
          let there : find exact (printers cache.by_id) ≡ some p = e ∙ ap some same in
          (
            find-Mem exact (printers cache.by_id) p there,
            inl ((eq_iff p.name name).0 (find-holds exact (printers cache.by_id) p there)),
          )
    ]

-- A printer that `resolve_printer` answers with is one that the selector selects in the cache
-- that the call leaves behind: an id is looked up; of a name the cache has the printer, and it is
-- matched exactly, and without regard to case only if no printer bears it exactly.
pub resolve_printer-Selects :
    (min_gap now : ℕ) (answers : List (String × Result (List Printer))) (selector : PrinterSelector)
    (cache : PrinterCache) (p : Printer)
    → (resolve_printer min_gap answers now selector cache).1 ≡ ok p
    → Selects (resolve_printer min_gap answers now selector cache).0 selector p
unfolding resolve_printer
resolve_printer-Selects min_gap now answers selector cache p =
    elim (Option-cases (find_printer cache selector)) [
      | inr (q, e) ↦
          rw (e, resolve_printer)
            (λ h. find_printer-Selects cache selector p (ground (arith, e, h)))
      | inl e ↦
          rw (e, resolve_printer)
            (λ h.
              let cache' = (refresh_if_stale min_gap answers now cache).0 in
              elim (Option-cases (find_printer cache' selector)) [
                | inl n ↦ absurd (ground (arith, n, h))
                | inr (q, f) ↦ find_printer-Selects cache' selector p (ground (arith, f, h))
              ])
    ]
