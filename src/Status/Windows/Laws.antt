-- ===== src/Status/Windows/Laws.antt =====
-- What becomes of the spooler's flags (providers/windows/src/status.rs).
use Prim.Native.Nat.{bit_or, bit_and}
use kiln_print.Prelude.{ℕ, ◌≡◌, refl, String, true, Option, none, some, inl, inr, Bool-cases}
use kiln_print.Engine.Types.{ProviderJobState}
use kiln_print.Status.Flags.{is_set, seen-kept}
use kiln_print.Status.Windows.{printed_mask, deleted_mask, job_state, resolve_job_state}

job_state-printed :
    (flags : ℕ) (text : Option String)
    → is_set flags printed_mask ≡ true
    → job_state flags text ≡ ProviderJobState.printed
unfolding job_state
job_state-printed flags text h = elim (Bool-cases (is_set flags deleted_mask)) [
  | inl t ↦ rw (h, t, job_state) refl
  | inr f ↦ rw (h, f, job_state) refl
]

-- A job that was once seen as printed is reported as printed, whatever flags it has now and whether
-- or not it is still in the spooler.
pub resolve_job_state-printed :
    (current : Option (ℕ × Option String)) (observed : ℕ)
    → is_set observed printed_mask ≡ true
    → resolve_job_state current observed ≡ ProviderJobState.printed
unfolding resolve_job_state
resolve_job_state-printed none observed h = rw (h, resolve_job_state) refl
resolve_job_state-printed (some (flags, text)) observed h =
    job_state-printed (bit_or flags (bit_and observed printed_mask)) text
      (seen-kept flags observed printed_mask h)
