-- ===== src/Status/Tcp/Laws.antt =====
-- What becomes of the conditions that a device reports (providers/tcp/src/status.rs).
use kiln_print.Prelude.{◌≡◌, ◌↔◌, ◌∙◌, subst, Bool, true, List, arith, any, ◌==◌, if◌then◌else◌}
use kiln_print.Printer.{PrinterCondition, PrinterState}
use kiln_print.Status.Order.{
  rank, contains, sort_conditions, sort_conditions-IsSorted, any-sort, dedup, any-dedup,
  dedup-IsStrict, IsStrict,
}
use kiln_print.Status.Tcp.{device_state, from_conditions, stops_device}

-- The branches of `device_state`, as a choice between any tests.
module _ (unreachable stopped held : Bool) where
  abbrev choice : PrinterState
  choice =
      if unreachable
      then PrinterState.offline
      else if stopped
      then PrinterState.error
      else if held
      then PrinterState.paused
      else PrinterState.ready

  choice-offline : (choice ≡ PrinterState.offline) ↔ (unreachable ≡ true)
  choice-offline = ground arith

-- The conditions of a device's status are those that were found, in their order and each once; the
-- device is OFFLINE exactly if that was found.
pub from_conditions_lem :
    (found : List PrinterCondition)
    → IsStrict (from_conditions found).conditions
      × ((p : PrinterCondition → Bool) → any p (from_conditions found).conditions ≡ any p found)
      × (((from_conditions found).state ≡ PrinterState.offline)
          ↔ (contains PrinterCondition.offline found ≡ true))
unfolding from_conditions device_state
from_conditions_lem found =
    let cs = dedup (sort_conditions found) in
    let same : (p : PrinterCondition → Bool) → any p cs ≡ any p found =
      λ p. any-dedup p (sort_conditions found) ∙ any-sort p found in
    (
      dedup-IsStrict (sort_conditions found) (sort_conditions-IsSorted found),
      same,
      subst
          (λ b.
            (choice (contains PrinterCondition.offline cs) (any stops_device cs)
                (contains PrinterCondition.paused cs)
              ≡ PrinterState.offline)
            ↔ (b ≡ true))
          (same (λ d. rank d == rank PrinterCondition.offline))
          (choice-offline (contains PrinterCondition.offline cs) (any stops_device cs)
            (contains PrinterCondition.paused cs)),
    )
