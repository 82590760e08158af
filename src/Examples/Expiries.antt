-- ===== src/Examples/Expiries.antt =====
-- The theorems on the recovery of leases.
use formula1_dashboard.Common.{
  ◌≤◌, ◌≡◌, refl, false, none, some, [], ◌∷◌, ok, length, select, ◌==◌, if◌then◌else◌,
}
use formula1_dashboard.Policy.Number.{nonnegative, unit_fraction, round_div, equal_jitter}
use formula1_dashboard.Policy.Retry.{calculate_retry_schedule, nominal_seconds}
use formula1_dashboard.Store.{
  Store, JobSession, Ingestion, running, pending, fastf1_archive, finalized, find_row, put_row,
  UniqueRows,
}
use formula1_dashboard.Orchestration.Recovery.{
  Environment, RecoveredLease, recover_stale, is_stale, lease_expired,
}
use formula1_dashboard.Orchestration.Expiry.{recover_stale-length, fresh_untouched}
use formula1_dashboard.Examples.Data.{settings, queued, queued_row, queued_job, store_of}

-- Two claimed sessions; the worker of session 7 was last seen at 100, that of session 8 at 400 s.
abbrev lost_row : JobSession
lost_row = record queued_row { status = running; attempt_count = 1; heartbeat_at = some 100 }

abbrev live_row : JobSession
live_row = record queued_row {
  session_id = 8;
  status = running;
  attempt_count = 1;
  heartbeat_at = some 400000000;
}

abbrev ingestion_of : JobSession → Ingestion
ingestion_of row = record {
  session_id = row.session_id;
  status = running;
  source = fastf1_archive;
  record_state = finalized;
  attempt_count = 1;
  first_started_at = some 50;
  last_started_at = some 50;
  heartbeat_at = row.heartbeat_at;
  next_retry_at = none;
  completed_at = none;
  source_updated_at = none;
  last_error_code = none;
  last_error_message = none;
}

abbrev leased : Store
leased = record queued {
  job_ids = 1 ∷ [];
  jobs = λ id. if id == 1 then some (record queued_job { status = running }) else none;
  job_sessions = live_row ∷ lost_row ∷ [];
  ingestions = λ n.
      if n == 7
      then some (ingestion_of lost_row)
      else if n == 8
      then some (ingestion_of live_row)
      else none;
}

abbrev environment : Environment
environment = record {
  scanned_at = λ _. 500000000;
  locked = λ _. false;
  recovered_at = λ _. 500000000;
  jitter = λ _. nonnegative (record { num = 0; pred_den = 0 });
}

abbrev lease : RecoveredLease
lease = record {
  job_id = 1;
  session_id = 7;
  job_attempt_count = 1;
  session_attempt_token = 1;
  status = pending;
  recovered_at = 500000000;
  next_retry_at = some 530000000;
  failure = lease_expired;
}

recovered : Store
unfolding recover_stale
recovered = store_of leased (recover_stale settings environment 5 leased)

recovery : recover_stale settings environment 5 leased ≡ ok (lease ∷ [], recovered)
unfolding recovered recover_stale calculate_retry_schedule nominal_seconds unit_fraction
    equal_jitter round_div find_row put_row select
recovery = refl

recover_stale-length_example : length (lease ∷ []) ≤ 5
recover_stale-length_example =
    recover_stale-length settings environment 5 leased recovered (lease ∷ []) recovery

leased_unique : UniqueRows leased.job_sessions
unfolding find_row
leased_unique = (refl, (refl, tt))

live-found : find_row 1 8 leased.job_sessions ≡ some live_row
unfolding find_row
live-found = refl

live-fresh : is_stale settings environment leased live_row ≡ false
unfolding is_stale
live-fresh = refl

fresh_untouched_example : find_row 1 8 recovered.job_sessions ≡ some live_row
fresh_untouched_example =
    fresh_untouched settings environment 5 leased recovered (lease ∷ []) live_row leased_unique
      live-found live-fresh recovery
