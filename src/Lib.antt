-- ===== src/Lib.antt =====
-- A Formula 1 dashboard keeps an archive of seasons in PostgreSQL. A worker claims queued
-- sessions, loads each from FastF1 and replaces what the archive holds of it; upstream requests
-- pass a shared budget; live sessions are followed from the official feed. The model covers the
-- core of the backend, in Python under backend/app.
--
-- Common holds what the other files share: tests on the native numbers, lists, and `Outcome`,
-- the value or the exception of an operation.
--
-- Policy is backend/app/ingestion/runtime_policy.py. Policy.Settings has
-- `BackfillRuntimeSettings` and `__post_init__` (`validate`), Policy.Retry has
-- `calculate_retry_schedule`, Policy.Number the arithmetic of delays. Floats are the fractions
-- that they stand for, and `timedelta` is a number of microseconds. Policy.Validation,
-- Policy.Checkpoints, Policy.Bounds and Policy.Delays are proofs. Failures has `classify_retry`,
-- `_sqlstate`, and `sanitize_archive_failure` of backend/app/ingestion/archive_attempt.py.
--
-- Freshness is backend/app/ingestion/freshness_policy.py; the calendar year of an instant is a
-- parameter.
--
-- Budget is backend/app/ingestion/request_budget.py: `reserve` on the gate row and the event
-- table, and `read_fastf1_request_budget` in Budget.Snapshot. A transaction that holds the
-- gate's lock is one step, at the time that the database clock answers.
--
-- Store has the tables of backend/app/db/models/backfill.py and
-- backend/app/db/models/ingestion.py. The table of job-sessions is a list with unique keys, the
-- others are functions of the primary key. Orchestration is
-- backend/app/ingestion/backfill_orchestration.py, with one file for each operation: Claim,
-- Heartbeat, Failure, Recovery, Aggregation; Completion is the status side of
-- `replace_archive_session` of backend/app/ingestion/archive_persistence.py, and Replacement the
-- whole of it with the validation of its arguments. An operation takes
-- the tables and answers with new tables, or raises and leaves them. Steps is any sequence of
-- operations of any workers; Invariant, Keeps, Owned, Writes, Stale and Tokens carry the proofs
-- about such sequences, and Fencing, Gates, Dispositions, Expiry and Progress what they promise.
-- Loops run over lists of rows, so no fuel is needed.
--
-- Planning is backend/app/ingestion/season_backfill.py. Planning.Catalogue has the tables of
-- seasons, events, sessions and deferred events, and the records of a schedule; Planning.Discovery
-- is `_persist_schedule_snapshot`, Planning.Eligibility and Planning.Queue `_create_or_reuse_job`,
-- and Planning.Ensure `ensure_season_backfill`, which is given what each of its transactions finds.
-- A planning is one of the operations of Orchestration.Steps. Planning.ActiveJobs, Attempts,
-- Sources and Replanning state what it promises, over Added, Writes, Errors, Kept, Foreign and
-- Settling.
--
-- Worker is backend/app/ingestion/backfill_worker.py with backend/app/ingestion/archive_ingestion.py:
-- Worker.Ingest the ingestion of one session, Worker.Process `process_next_archive_job_session`,
-- Worker.Maintenance `perform_worker_maintenance`. Between two transactions an arbitrary function
-- stands for what other sessions and the heartbeat thread do; Worker.Refinement, Worker.Truthful
-- and Worker.Superseded assume that it is a sequence of operations, and Worker.Covered that it
-- leaves every job under its own id.
--
-- Tokens is backend/app/auth/tokens.py over base64, HMAC and JSON as parameters. Tokens.Encoding
-- says what is assumed of base64; Tokens.Reading reads tokens.
--
-- Live.Retention is backend/app/live/retention.py: the sweep of old session logs, on a directory
-- that is the list of its entries; the proofs are in Live.Retention.Swept.
--
-- Live.Frames is backend/app/live/frames.py: the acceptance of what the feed brings, and in
-- Live.Frames.Log the lines that a session log keeps, with the writing and the reading of JSON
-- texts as parameters.
--
-- Live.CurrentView is backend/app/live/current_view.py on JSON values, with the decimal digits of
-- Unicode and Python's equality of payloads as parameters; Lookups, Shapes, Merging and Replays
-- are proofs.
--
-- Attempt is the attempt without a job of backend/app/ingestion/archive_attempt.py. Login is
-- `AttemptLimiter` and the branches of `login` of backend/app/auth/api.py. Live.Positions is
-- backend/app/live/positions.py and Live.PitStops backend/app/live/pit_stops.py; the rounding of
-- a duration is a parameter there.
--
-- Examples applies the theorems at concrete inputs.
--
-- Not modelled: the sporting rows that a completion replaces, the reading of FastF1 data and of
-- schedules, telemetry, the polling loop of the worker, the read API, cookies, the live collector
-- and board, the writing of session logs, and the parsing of the environment. Row locks appear as
-- atomic steps, and rows that `SKIP LOCKED` passes over as an argument; timeouts and serialization
-- failures of the database are left out.
pub mod Common
pub mod Policy
pub mod Freshness
pub mod Budget
pub mod Store
pub mod Failures
pub mod Orchestration
pub mod Planning
pub mod Worker
pub mod Attempt
pub mod Login
pub mod Tokens
pub mod Live
pub mod Examples
