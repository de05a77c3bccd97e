-- ===== src/Examples/Jobs.antt =====
-- The life cycle of jobs at concrete jobs (print-core/src/model/job.rs).
use kiln_print.Prelude.{◌≡◌, refl, false, some, none}
use kiln_print.Job.{new, transition, complete, raw, queued, printing, spooler_reported_printed}
use kiln_print.Examples.Data.{fresh_job, queued_job}

-- cannot_skip_validation_or_go_backwards
no_way_back : (transition 1 queued (record queued_job { status = printing })).1 ≡ false
unfolding transition
no_way_back = refl

-- happy_path_transitions
happy_path :
    (complete 9 spooler_reported_printed (transition 8 printing queued_job).0).0.completed_at
    ≡ some 9
unfolding complete
happy_path = refl

new_job :
    new 1000 7 "lab-app" raw 1 120
    ≡ record fresh_job { language = none; job_name = none; idempotency_key = none }
unfolding new
new_job = refl
