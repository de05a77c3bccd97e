-- ===== src/Agent/Service/Laws.antt =====
-- Who sees and does what through agent/src/api/service.rs.
pub mod Queues
use kiln_print.Prelude.{
  ℕ, ◌≡◌, ◌≢◌, ◌↔◌, ◌⊎◌, refl, sym, ap, subst, ◌∙◌, inl, inr, String, Bool, true, false, not, ◌&&◌,
  ◌||◌, Option, none, some, List, [], ◌∷◌, All, All-keep, keep, arith, str_eq, eq_iff,
  if◌then◌else◌, Bool-cases, Option-cases,
}
use kiln_print.Error
use kiln_print.Error.{
  PrintError, Result, ok, err, Result-cases, printer_not_found_error, job_not_found_error,
  with_printer,
}
use kiln_print.Job.{Job}
use kiln_print.Printer.{Printer, PrinterCapabilities}
use kiln_print.Repository.{JobFilter, matches}
use kiln_print.Engine.Discovery.Resolve.{unknown}
use kiln_print.Engine.Submit.Types.{PrinterScope, everywhere, only, PrinterSelector, by_id, by_name}
use kiln_print.Engine.Submit.Checks.{allows}
use kiln_print.Agent.Security.{
  Principal, has, require, require-ok, printer_scope, printers_read, jobs_read, jobs_read_all,
  jobs_cancel, jobs_cancel_all,
}
use kiln_print.Agent.Task.{Task, lift, bind-ok}
use kiln_print.Agent.Wire.{JobsListParams, parse_statuses}
use kiln_print.Agent.Service.{
  PrintEngine, can_see, own, visible, not_found, jobs_filter, list_printers, visible_printer,
  get_printer, list_jobs, get_job, may_list, may_cancel, cancel_job,
}

All-imp :
    {A : Type 0} (P Q : A → Type 0) → ((a : A) → P a → Q a) → (xs : List A) → All P xs → All Q xs
All-imp P Q f [] h = tt
All-imp P Q f (x ∷ xs) h = (f x h.0, All-imp P Q f xs h.1)

matches-own :
    (f : JobFilter) (j : Job) (c : String)
    → f.client_id ≡ some c
    → matches f j ≡ true
    → j.client_id ≡ c
unfolding matches
matches-own f j c e h = ground (arith, e, h, eq_iff j.client_id c)

-- What a caller must hold to cancel a job: it sees the job, and may cancel every job, or its own.
abbrev pub MayCancel : Principal → Job → Type 0
MayCancel who j =
    (can_see who j ≡ true)
    × ((has who jobs_cancel_all ≡ true)
        ⊎ ((has who jobs_cancel ≡ true) × (j.client_id ≡ who.client_id)))

may_cancel-MayCancel :
    (who : Principal) (j : Job) → can_see who j ≡ true → may_cancel who j ≡ ok tt → MayCancel who j
unfolding may_cancel require
may_cancel-MayCancel who j v h = elim (Bool-cases (has who jobs_cancel_all)) [
  | inl t ↦ (v, inl t)
  | inr n ↦ elim (Bool-cases (own who j)) [
    | inl t ↦ elim (Bool-cases (has who jobs_cancel)) [
      | inl c ↦ (v, inr (c, (eq_iff j.client_id who.client_id).0 t))
      | inr c ↦ absurd (ground (arith, c, t, n, h))
    ]
    | inr f ↦ absurd (ground (arith, f, n, h))
  ]
]

-- A listing of the engine matches its filter.
abbrev pub IsFiltered : {S Q : Type 0} → PrintEngine S Q → Type 0
IsFiltered {S = S} engine =
    (s : S) (f : JobFilter) (js : List Job)
    → engine.jobs s f ≡ ok js
    → All (λ j. matches f j ≡ true) js

pure-bind :
    {A B : Type 0} (r : Result A) (f : A → Result B) (b : B)
    → Error.◌>>=◌ r f ≡ ok b
    → (a : A) × (r ≡ ok a) × (f a ≡ ok b)
pure-bind (ok a) f b h = (a, refl, h)
pure-bind (err e) f b h = absurd (ground (arith, h))

jobs_filter-own :
    (who : Principal) (params : JobsListParams) (f : JobFilter)
    → has who jobs_read_all ≡ false
    → jobs_filter who params ≡ ok f
    → f.client_id ≡ some who.client_id
unfolding jobs_filter
jobs_filter-own who params f n h = elim (Result-cases (parse_statuses params.status)) [
  | inr (e, g) ↦ absurd (ground (arith, g, h))
  | inl (statuses, g) ↦ ground (arith, g, h, n)
]

module _ {S Q : Type 0} (engine : PrintEngine S Q) where
  -- A caller without the permission to read every client's jobs is listed its own jobs only, whatever
  -- client it asks for, if the engine's listings match their filters.
  pub list_jobs-own :
      (who : Principal) (params : JobsListParams) (s : S) (js : List Job)
      → IsFiltered engine
      → has who jobs_read_all ≡ false
      → list_jobs engine who params s ≡ ok js
      → All (λ (j : Job). j.client_id ≡ who.client_id) js
  unfolding list_jobs
  list_jobs-own who params s js filtered n h =
      let listing : JobFilter → Result (List Job) = engine.jobs s in
      let rest : Unit {0} → Result (List Job) = λ u. Error.◌>>=◌ (jobs_filter who params) listing in
      let (u, e, g) = pure-bind (may_list who) rest js h in
      let (f, e', g') = pure-bind (jobs_filter who params) listing js g in
      All-imp (λ j. matches f j ≡ true) (λ (j : Job). j.client_id ≡ who.client_id)
        (λ j m. matches-own f j who.client_id (jobs_filter-own who params f n e') m) js
        (filtered s f js g')

  -- A job is answered exactly if the engine has it and the caller may see it; any other answer is the
  -- same error, so that a caller cannot tell a job of another client from one that does not exist.
  pub get_job_lem :
      (who : Principal) (id : ℕ) (s : S)
      → ((j : Job)
          → (get_job engine who id s ≡ ok j) ↔ ((engine.job s id ≡ ok j) × (can_see who j ≡ true)))
        × ((e : PrintError) → get_job engine who id s ≡ err e → e ≡ job_not_found_error id)
  unfolding get_job
  get_job_lem who id s = elim (Result-cases (engine.job s id)) [
    | inr (e, f) ↦ (λ j. ground (arith, f), λ e' h. ground (arith, f, h))
    | inl (k, f) ↦ elim (Bool-cases (can_see who k)) [
      | inl t ↦ (λ j. ground (arith, f, t), λ e' h. ground (arith, f, t, h))
      | inr n ↦ (λ j. ground (arith, f, n), λ e' h. ground (arith, f, n, h))
    ]
  ]

  -- A cancellation is either refused with an error, the engine untouched, or it is the engine's, of a
  -- job that the caller sees and may cancel: any job, or its own.
  pub cancel_job_lem :
      (who : Principal) (id : ℕ) (s : S)
      → (((cancel_job engine who id s).0 ≡ s)
          × ((e : PrintError) × ((cancel_job engine who id s).1 ≡ err e)))
        ⊎ ((j : Job) × (engine.job s id ≡ ok j)
            × MayCancel who j
            × (cancel_job engine who id s ≡ engine.cancel id s))
  unfolding cancel_job
  cancel_job_lem who id s = elim (Result-cases (get_job engine who id s)) [
    | inr (e, f) ↦ rw (f, cancel_job) (inl (refl, (e, refl)))
    | inl (j, f) ↦ elim (Result-cases (may_cancel who j)) [
      | inr (e, g) ↦ rw (f, g, cancel_job) (inl (refl, (e, refl)))
      | inl (u, g) ↦
          let (found, seen) = ((get_job_lem who id s).0 j).0 f in
          rw (f, g, cancel_job) (inr (j, found, may_cancel-MayCancel who j seen g, refl))
    ]
  ]
