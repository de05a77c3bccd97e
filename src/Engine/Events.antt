-- ===== src/Engine/Events.antt =====
-- The events that `mutate` sends (print-core/src/engine/mod.rs) against the job that they carry, for
-- every closure that the engine runs.
use kiln_print.Prelude.{ℕ, String, ◌≡◌, Bool, true, false, Option, none, some, List, arith}
use kiln_print.Error.{PrintError}
use kiln_print.Job.{Job, JobStatus, CompletionEvidence, is_terminal}
use kiln_print.Engine.Types.{JobEventKind, Change, ProviderJobState}
use kiln_print.Engine.Changes.{
  fail_change, complete_change, cancel_warned, claim_change, delivered_change, spooled_change,
  monitor_change, withdraw_change, validate_change, address_change, queue_change,
}
use kiln_print.Engine.Changes.Sound.{
  IsSound, fail-IsSound, complete-IsSound, cancel_warned-IsSound, claim-IsSound, delivered-IsSound,
  spooled-IsSound, monitor-IsSound, withdraw-IsSound, validate-IsSound, address-IsSound,
  queue-IsSound,
}

-- The status that an event of this kind announces; `none` if it announces none.
abbrev pub announced : JobEventKind → Option JobStatus
announced JobEventKind.queued = some JobStatus.queued
announced JobEventKind.printing = some JobStatus.printing
announced JobEventKind.completed = some JobStatus.completed
announced JobEventKind.failed = some JobStatus.failed
announced JobEventKind.cancelled = some JobStatus.cancelled
announced _ = none

abbrev pub ends : JobEventKind → Bool
ends JobEventKind.completed = true
ends JobEventKind.failed = true
ends JobEventKind.cancelled = true
ends _ = false

abbrev pub ends_with : Option JobEventKind → Bool
ends_with none = false
ends_with (some kind) = ends kind

-- The event that ends a job is sent exactly when the job becomes terminal, and no event announces a
-- status that the job does not have.
pub record IsHonest (c : Change) : Type 0 where
  pub ends_iff :
      (j : Job) → is_terminal j.status ≡ false → ends_with (c j).1 ≡ is_terminal (c j).0.status
  pub tells :
      (j : Job) {kind : JobEventKind} {status : JobStatus}
      → is_terminal j.status ≡ false
      → (c j).1 ≡ some kind
      → announced kind ≡ some status
      → (c j).0.status ≡ status

-- Everything in the engine that changes a job after it was tracked, by the place in the code.
pub data Cause : Type 0 where
  validates : ℕ → Cause
  addresses : String → String → Cause
  queues : ℕ → List String → Option String → Cause
  claims : Cause
  delivers : ℕ → ℕ → Cause
  spools : ℕ → ℕ → Cause
  fails : ℕ → PrintError → Cause
  completes : ℕ → CompletionEvidence → Cause
  withdraws : ℕ → Cause
  deletes : ℕ → String → Cause
  observes : ℕ → Bool → ProviderJobState → Cause

unfoldable pub change_of : Cause → Change
unfolding validate_change address_change queue_change claim_change delivered_change spooled_change
    fail_change complete_change withdraw_change cancel_warned monitor_change
change_of (validates t) = validate_change t
change_of (addresses id name) = address_change id name
change_of (queues t warnings language) = queue_change t warnings language
change_of claims = claim_change
change_of (delivers t t') = delivered_change t t'
change_of (spools t id) = spooled_change t id
change_of (fails t e) = fail_change t e
change_of (completes t c) = complete_change t c
change_of (withdraws t) = withdraw_change t
change_of (deletes t w) = cancel_warned t w
change_of (observes t cancelling state) = monitor_change t cancelling state

pub change_of-IsSound : (cause : Cause) → IsSound (change_of cause)
unfolding change_of
change_of-IsSound (validates t) = validate-IsSound t
change_of-IsSound (addresses id name) = address-IsSound id name
change_of-IsSound (queues t warnings language) = queue-IsSound t warnings language
change_of-IsSound claims = claim-IsSound
change_of-IsSound (delivers t t') = delivered-IsSound t t'
change_of-IsSound (spools t id) = spooled-IsSound t id
change_of-IsSound (fails t e) = fail-IsSound t e
change_of-IsSound (completes t c) = complete-IsSound t c
change_of-IsSound (withdraws t) = withdraw-IsSound t
change_of-IsSound (deletes t w) = cancel_warned-IsSound t w
change_of-IsSound (observes t cancelling state) = monitor-IsSound t cancelling state

monitor-IsHonest :
    (t : ℕ) (k : Bool) (state : ProviderJobState) → IsHonest (monitor_change t k state)
unfolding monitor_change
monitor-IsHonest t k ProviderJobState.pending = record {
  ends_iff = λ j o. ground arith;
  tells = λ j o p q. ground arith;
}
monitor-IsHonest t k ProviderJobState.printing = record {
  ends_iff = λ j o. ground arith;
  tells = λ j o p q. ground arith;
}
monitor-IsHonest t k (ProviderJobState.blocked c m) = record {
  ends_iff = λ j o. ground arith;
  tells = λ j o p q. ground arith;
}
monitor-IsHonest t true ProviderJobState.gone = record {
  ends_iff = λ j o. ground arith;
  tells = λ j o p q. ground arith;
}
monitor-IsHonest t false ProviderJobState.gone = record {
  ends_iff = λ j o. ground arith;
  tells = λ j o p q. ground arith;
}
monitor-IsHonest t k _ = record { ends_iff = λ j o. ground arith; tells = λ j o p q. ground arith }

-- On a job that is not terminal, each of the engine's changes announces an end exactly if it ends the
-- job, and an event that stands for a status (queued, printing, completed, failed, cancelled) is sent
-- only if the job then has that status.
pub change_of-IsHonest : (cause : Cause) → IsHonest (change_of cause)
unfolding change_of
change_of-IsHonest (observes t cancelling state) = monitor-IsHonest t cancelling state
change_of-IsHonest _ = record { ends_iff = λ j o. ground arith; tells = λ j o p q. ground arith }
