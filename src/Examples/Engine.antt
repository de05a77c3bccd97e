-- ===== src/Examples/Engine.antt =====
-- The engine's theorems at concrete jobs, tasks and answers (print-core/src/engine).
use kiln_print.Prelude.{
  ℕ, ◌≡◌, ◌≢◌, refl, true, false, ◌⊎◌, some, none, inr, List, [], ◌∷◌, ◌++◌, All, Map, lookup,
  arith,
}
use kiln_print.Error.{ok, err, internal}
use kiln_print.Job.{Job, JobStatus, DeliveryStage, is_terminal}
use kiln_print.Job.Wellformed.{IsWellformed}
use kiln_print.Repository.{in_memory}
use kiln_print.Repository.Laws.{in_memory-IsReliable}
use kiln_print.Engine.Types.{ProviderJobState, spooled, JobEventKind, job_event}
use kiln_print.Engine.Events.{Cause, change_of, IsHonest, change_of-IsHonest}
use kiln_print.Engine.Trace.{IsConsistent, IsFresh, here, next, tracks, changes}
use kiln_print.Engine.Trace.Reached.{IsFollowed, Reach-IsConsistent}
use kiln_print.Engine.Changes.Failing.{Records}
use kiln_print.Engine.Monitor.{done, is_cancelling, apply, Poll}
use kiln_print.Engine.Monitor.Laws.{verdict, apply-verdict}
use kiln_print.Engine.Worker.{Submission, returned, process}
use kiln_print.Engine.Worker.Outcomes.{Settles, process-Settles}
use kiln_print.Engine.Cancel.{Cancellation, cancel}
use kiln_print.Engine.Cancel.Laws.{cancel-process}
use kiln_print.Engine.Restart.{reconcile_all, reconcile_one, fail_all, shut_down, outcome}
use kiln_print.Engine.Restart.Laws.{
  Settled, Meets, fate, reconcile_all-Settled, reconcile_one-Meets,
}
use kiln_print.Engine.Restart.Race.{claims, shutdown_race}
use kiln_print.Engine.{mutate, track}
use kiln_print.Examples.Data.{fresh_job, queued_job, spooled_job, empty, holding}

empty-IsConsistent : IsConsistent in_memory empty
unfolding lookup
empty-IsConsistent = record {
  table = record { live = λ id j h. cc };
  at_most_once = λ id. omega arith;
  running = λ id j h. cc;
}

fresh_job-IsWellformed : IsWellformed fresh_job
fresh_job-IsWellformed = ground arith

unused_id-IsFresh : IsFresh 7 empty
unfolding lookup
unused_id-IsFresh = record { inactive = refl; silent = refl }

Reach-IsConsistent_example :
    let s' =
      (mutate in_memory 1200 7
        (change_of (Cause.fails 1100 internal))
        (track in_memory fresh_job empty).0).0 in
    IsConsistent in_memory s' × ((k : ℕ) → IsFollowed k empty → IsFollowed k s')
Reach-IsConsistent_example = Reach-IsConsistent in_memory-IsReliable empty-IsConsistent (
    next (next here (tracks fresh_job fresh_job-IsWellformed refl unused_id-IsFresh refl))
      (changes 1200 7 (Cause.fails 1100 internal) refl))

-- A provider that spools the job as number 31, with no other task at work.
abbrev quiet : Submission (Map Job)
quiet = record {
  found = ok tt;
  permit = true;
  others = λ s. s;
  answer = returned (ok (spooled 31));
  timeout_secs = 120;
  claimed_at = 1015;
  t = 1020;
  t' = 1021;
  now = 1022;
}

-- The job, claimed by the worker: what the other tasks find, and leave as it is.
abbrev others_wait : Submission (Map Job)
others_wait = record quiet {
  others = λ s. holding (record queued_job { delivery = DeliveryStage.submitting });
}

process-Settles_example : Settles 7 (process in_memory others_wait 7 (holding queued_job))
unfolding lookup
process-Settles_example =
    process-Settles in_memory others_wait 7 (holding queued_job) refl refl
      (λ s. inr (_, refl, refl))

abbrev asked : Cancellation (Map Job)
asked = record {
  others = λ s. s;
  resolved = ok tt;
  meanwhile = λ s. s;
  answer = ok tt;
  t = 1030;
  now = 1031;
}

cancel-process_example :
    (j' : Job) × ((cancel in_memory asked 7 (holding queued_job)).1 ≡ ok j')
    × (j'.status ≡ JobStatus.cancelled)
    × ((cancel in_memory asked 7 (holding queued_job)).0.events
        ≡ [] ++ job_event JobEventKind.cancelled j' ∷ [])
    × ((b : Submission (Map Job))
        → process in_memory b 7 (cancel in_memory asked 7 (holding queued_job)).0
          ≡ ((cancel in_memory asked 7 (holding queued_job)).0, none))
unfolding lookup
cancel-process_example =
    cancel-process in_memory asked 7 (holding queued_job) {j = queued_job} refl refl refl

abbrev handing : Job
handing = record queued_job { delivery = DeliveryStage.submitting }

apply-verdict_example :
    let status =
      verdict (is_cancelling 7 (holding spooled_job)) spooled_job.status ProviderJobState.printed in
    let (s', step) = apply in_memory 1040 1041 7 ProviderJobState.printed (holding spooled_job) in
    ((step ≡ done) × (is_terminal status ≡ true) × (lookup 7 s'.active ≡ none))
    ⊎ ((is_terminal status ≡ false)
        × (step ≢ done)
        × ((j : Job) × (lookup 7 s'.active ≡ some j) × (j.status ≡ status)))
unfolding lookup
apply-verdict_example =
    apply-verdict in_memory 1040 1041 7 ProviderJobState.printed (holding spooled_job)
      {before = spooled_job} refl refl

abbrev polls : List (Poll (Map Job))
polls =
    record {
      shut_down = false;
      others = λ s. s;
      meanwhile = λ s. s;
      answer = ok ProviderJobState.pending;
      t = 1;
      now = 2;
    }
    ∷ record {
      shut_down = false;
      others = λ s. s;
      meanwhile = λ s. s;
      answer = err internal;
      t = 3;
      now = 4;
    }
    ∷ []

abbrev clock : ℕ → ℕ × ℕ
clock id = (2000, 2001)

reconcile_all-Settled_example :
    All
      (Settled
        (reconcile_all in_memory clock (λ p. none) (queued_job ∷ []) empty).0
        (reconcile_all in_memory clock (λ p. none) (queued_job ∷ []) empty).1)
      (queued_job ∷ [])
reconcile_all-Settled_example =
    reconcile_all-Settled in_memory clock (λ p. none) (queued_job ∷ []) empty (refl, tt)
      ((refl, λ e. cc), tt)

reconcile_one-Meets_example :
    Meets
      (fate DeliveryStage.submitting none none)
      7
      (holding handing)
      (reconcile_one in_memory clock 7 DeliveryStage.submitting none none (holding handing))
unfolding lookup
reconcile_one-Meets_example =
    reconcile_one-Meets in_memory clock 7 DeliveryStage.submitting none none handing
      (holding handing) refl refl (λ e. cc)

shutdown_race_example :
    (failed : Job) × ((fail_all in_memory clock
        (claims in_memory clock 1999)
        (queued_job ∷ [])
        (holding queued_job)).events
      ≡ [] ++ job_event JobEventKind.failed failed ∷ [])
    × (failed.delivery ≡ DeliveryStage.submitting)
    × (r : Records shut_down failed) × (r.recorded.recoverable ≡ true)
    × (r.recorded.details ≡ some (outcome "NOT_PRINTED"))
unfolding lookup
shutdown_race_example = shutdown_race in_memory clock 1999 queued_job (holding queued_job) refl refl

change_of-IsHonest_example : IsHonest (change_of (Cause.observes 1100 true ProviderJobState.gone))
change_of-IsHonest_example = change_of-IsHonest (Cause.observes 1100 true ProviderJobState.gone)
