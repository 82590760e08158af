-- ===== src/Orchestration/Completion.antt =====
-- The status side of `replace_archive_session` of backend/app/ingestion/archive_persistence.py for a
-- claimed session: the ownership tests, the identity test, and the rows that mark the completion.
-- The sporting rows are not modelled; whether another source owns any of them is an argument.
use text.Mathlib.Text.{◌==◌ as str_eq}
use formula1_dashboard.Common.{
  ℕ, Bool, true, not, Option, none, some, Outcome, ok, ◌>>=◌, ◌>>◌, guard, ◌==◌, ◌&&◌, or_else,
}
use formula1_dashboard.Store.{
  Store, JobSession, Ingestion, SessionIdentity, completed, fastf1_archive, finalized, StoreError,
  transaction_open, contract, source_conflict, target_changed, is_archive, update, put_row,
}
use formula1_dashboard.Orchestration.Rows.{
  Claim, owned_row, running_job, lock_session, owned_ingestion,
}

abbrev same_identity : SessionIdentity → SessionIdentity → Bool
same_identity a b =
    a.session_id == b.session_id
    && a.season_year == b.season_year
    && a.round_number == b.round_number
    && str_eq a.session_name b.session_name

-- `_mark_ingestion_completed`, where the row is there.
abbrev pub completed_ingestion : ℕ → Option ℕ → Ingestion → Ingestion
completed_ingestion at source_updated ingestion = record ingestion {
  status = completed;
  source = fastf1_archive;
  record_state = finalized;
  heartbeat_at = none;
  next_retry_at = none;
  completed_at = some at;
  source_updated_at = elim source_updated [ none ↦ ingestion.source_updated_at | some t ↦ some t ];
  last_error_code = none;
  last_error_message = none;
}

-- `_mark_claim_completed`.
abbrev pub completed_row : ℕ → JobSession → JobSession
completed_row at row = record row {
  status = completed;
  heartbeat_at = none;
  next_retry_at = none;
  completed_at = some at;
  last_error_code = none;
  last_error_message = none;
}

-- A test on an expected identity, passed where none is expected.
abbrev where_expected : (SessionIdentity → Bool) → Option SessionIdentity → Bool
where_expected test none = true
where_expected test (some expected) = test expected

-- The claimed replacement at the clock `now`, with the identity that the loader was asked for; the
-- answer is the time of completion. What comes before, the validation of the arguments, is in
-- Orchestration.Replacement; here the arguments are ones that it accepts.
unfoldable pub complete_claim :
    ℕ
    → Option ℕ
    → Option ℕ
    → Option SessionIdentity
    → Bool
    → Claim
    → Store
    → Outcome StoreError (ℕ × Store)
unfolding owned_row running_job lock_session owned_ingestion
complete_claim now completed_at source_updated expected foreign_rows claim db = do
  guard (not db.in_transaction) transaction_open
  guard (where_expected (λ e. e.session_id == claim.session_id) expected) contract
  row ← owned_row claim db
  job ← running_job claim.job_id db
  target ← lock_session claim.session_id db
  guard (where_expected (same_identity target) expected) target_changed
  ingestion ← owned_ingestion claim db
  guard (not foreign_rows && is_archive ingestion.source) source_conflict
  let at = or_else completed_at now
  ok (
    at,
    record db {
      jobs = update db.jobs claim.job_id (some (record job { heartbeat_at = some now }));
      job_sessions = put_row (completed_row at row) db.job_sessions;
      ingestions =
          update db.ingestions claim.session_id
            (some (completed_ingestion at source_updated ingestion));
    },
  )
