-- ===== src/Examples/Retries.antt =====
-- The theorems on jobs, the request budget and attempts without a job.
use formula1_dashboard.Common.{
  ℕ, ◌+◌, ◌≢◌, ◌≤◌, ◌<◌, ◌≡◌, ◌↔◌, refl, none, some, [], ◌∷◌, Outcome, ok, err, arith, count,
  select,
}
use formula1_dashboard.Budget.{
  Gate, pacing, archive, schedule, telemetry, Requests, reserve, exhausted, request_count,
  request_window,
}
use formula1_dashboard.Budget.Capacity.{reserve_full, closed_until}
use formula1_dashboard.Policy.Settings.{ValidSettings}
use formula1_dashboard.Budget.Snapshot.{
  Snapshot, paused, read_budget, read_budget-reserve, is_stopped, is_exhausted, operation_count,
}
use formula1_dashboard.Budget.Window.{run_window, run, opened, inside}
use formula1_dashboard.Failures.{ArchiveError, normalization, sanitize}
use formula1_dashboard.Store.{
  Store, Job, is_completed, is_failed, JobSession, Ingestion, completed, failed, already_running,
}
use formula1_dashboard.Orchestration.Aggregation.{Aggregation, aggregate, aggregated_job}
use formula1_dashboard.Orchestration.Progress.{
  aggregate-status, aggregated_job-again, HasRow, AllRows, is_any, is_closed,
}
use formula1_dashboard.Attempt.{mark_running, mark_pending, run_attempt, raised}
use formula1_dashboard.Attempt.Outcomes.{started_excludes, failure_recorded}
use formula1_dashboard.Examples.Data.{settings, queued, queued_row, queued_job, store_of}

-- A job whose only session is completed.
abbrev finished_row : JobSession
finished_row = record queued_row { status = completed; attempt_count = 1 }

abbrev finished : Store
finished = record queued { job_sessions = finished_row ∷ [] }

abbrev summary : Aggregation
summary = record {
  job_id = 1;
  status = completed;
  total_sessions = 1;
  counts = record {
    pending_sessions = 0;
    running_sessions = 0;
    completed_sessions = 1;
    failed_sessions = 0;
  };
  aggregated_at = 50;
  completed_at = some 50;
}

summed : Store
unfolding aggregate
summed = store_of finished (aggregate 50 1 finished)

first_summary : aggregate 50 1 finished ≡ ok (summary, summed)
unfolding summed aggregate select count
first_summary = refl

aggregate-status_example :
    ((after : Job) × (summed.jobs 1 ≡ some after) × (after.status ≡ summary.status))
    × ((summary.status ≡ completed)
        ↔ (HasRow is_any 1 finished.job_sessions × AllRows is_completed 1 finished.job_sessions))
    × ((summary.status ≡ failed)
        ↔ (AllRows is_closed 1 finished.job_sessions × HasRow is_failed 1 finished.job_sessions))
aggregate-status_example =
    aggregate-status 50 1 finished summed queued_job summary refl refl first_summary

aggregated_job-again_example :
    aggregated_job (finished_row ∷ []) 90 (aggregated_job (finished_row ∷ []) 50 queued_job)
    ≡ aggregated_job (finished_row ∷ []) 50 queued_job
aggregated_job-again_example = aggregated_job-again (finished_row ∷ []) 50 90 queued_job

-- The attempt on session 7.
started : Store
unfolding mark_running
started = store_of queued (mark_running 7 100 queued)

first_start : mark_running 7 100 queued ≡ ok (1, started)
unfolding started mark_running
first_start = refl

started_excludes_example :
    (mark_running 7 200 started ≡ err already_running)
    × (mark_pending 7 started ≡ err already_running)
started_excludes_example = started_excludes 7 100 200 1 queued started first_start

abbrev breaks : Store → Store × Outcome ArchiveError ℕ
breaks db = (db, err normalization)

failure_recorded_example :
    (after : Store) × (i : Ingestion) × (run_attempt breaks 7 100 queued
      ≡ (after, err (raised normalization)))
    × (after.ingestions 7 ≡ some i)
    × (i.status ≡ failed)
    × (i.attempt_count ≡ 1)
    × (i.last_error_code ≡ some (sanitize normalization).code)
    × (i.last_error_message ≡ some (sanitize normalization).message)
    × (i.next_retry_at ≡ none)
    × ((other : ℕ) → 7 ≢ other → after.ingestions other ≡ queued.ingestions other)
    × (after.job_sessions ≡ queued.job_sessions)
failure_recorded_example =
    failure_recorded breaks 7 100 1 normalization queued started first_start refl

-- Two requests in the window and a ceiling of 2.
abbrev narrow : ValidSettings
narrow = record settings {
  fastf1_request_operational_ceiling = 2;
  fastf1_request_warning_threshold = 1;
}

abbrev open_gate : Gate
open_gate = record { next_request_at = 0; reason = pacing }

abbrev busy : Requests
busy = record {
  gate = some open_gate;
  events =
      record { operation = archive; requested_at = 200 }
      ∷ record { operation = schedule; requested_at = 100 }
      ∷ [];
}

busy-full :
    narrow.fastf1_request_operational_ceiling
    ≤ request_count 300 (request_window narrow) busy.events
unfolding request_count count
busy-full = omega arith

reserve_full_example :
    (r : ℕ) × (reserve telemetry narrow 300 busy
      ≡ (record busy { gate = some (closed_until r open_gate) }, err (exhausted r)))
    × (300 ≤ r)
    × ((request_count 400 (request_window narrow) busy.events
          < request_count 300 (request_window narrow) busy.events)
        ↔ (r < 400))
reserve_full_example =
    reserve_full telemetry narrow 300 400 busy open_gate refl refl (omega arith) busy-full
      (omega arith)

run_window_example :
    count
      (inside (request_window narrow) 400)
      (run narrow (opened open_gate) (
        record { operation = archive; at = 100 }
        ∷ record { operation = schedule; at = 200 }
        ∷ record { operation = telemetry; at = 300 }
        ∷ [])).granted
    ≤ 2
run_window_example =
    run_window narrow 0 open_gate
      (record { operation = archive; at = 100 }
        ∷ record { operation = schedule; at = 200 }
        ∷ record { operation = telemetry; at = 300 }
        ∷ [])
      (omega arith) (omega arith, (omega arith, (omega arith, tt))) 400

abbrev shown : Snapshot
shown = record {
  observed_at = 300;
  observed_requests = 2;
  archive_requests = 1;
  schedule_requests = 1;
  telemetry_requests = 0;
  library_limit = 500;
  operational_ceiling = 2;
  warning_threshold = 1;
  remaining_before_pause = 0;
  next_capacity_at = some (100 + 3600000000);
  cooldown = none;
  status = paused;
}

shown-busy : read_budget narrow 300 busy ≡ some shown
unfolding read_budget operation_count count select
shown-busy = refl

read_budget-reserve_example :
    is_stopped shown.status ≡ is_exhausted (reserve archive narrow 300 busy).1
read_budget-reserve_example =
    read_budget-reserve archive narrow 300 busy open_gate shown refl shown-busy
