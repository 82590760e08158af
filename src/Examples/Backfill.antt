-- ===== src/Examples/Backfill.antt =====
-- The theorems on claims, leases and the gate.
use formula1_dashboard.Common.{◌+◌, ◌≤◌, ◌≡◌, refl, none, some, ok, arith, count}
use formula1_dashboard.Policy.Number.{microseconds, Number, nonnegative}
use formula1_dashboard.Budget.{budget}
use formula1_dashboard.Failures.{
  ArchiveError, request_budget_exhausted, normalization, retryable, terminal, sanitize,
  classify_retry,
}
use formula1_dashboard.Store.{JobSession, Ingestion, Store, pending, failed, find_row, put_row}
use formula1_dashboard.Orchestration.Rows.{Claim}
use formula1_dashboard.Orchestration.Claim.{claim_next}
use formula1_dashboard.Orchestration.Failure.{Transition, transition_failure, pause_of}
use formula1_dashboard.Orchestration.Invariant.{Inv, runs_session}
use formula1_dashboard.Orchestration.Steps.{Steps, claims, fails, done, step, Steps-Inv, one_runner}
use formula1_dashboard.Orchestration.Fencing.{Refused, fenced}
use formula1_dashboard.Orchestration.Gates.{pause_holds, paced, ReadBefore, TakeNone}
use formula1_dashboard.Orchestration.Dispositions.{terminal_fails}
use formula1_dashboard.Examples.Data.{
  settings, queued, unlocked, clock_at, claim_numbered, store_of,
}

queued-Inv : Inv 4 queued
unfolding count find_row
queued-Inv = record {
  unique = (refl, tt);
  budgeted = (
    record { capped = omega arith; claimable = λ _. omega arith; attempted = λ e. absurd (cc) },
    tt,
  );
  exclusive = λ n. ground arith;
}

-- A worker claims the session at 100.
claimed : Store
unfolding claim_next
claimed = store_of queued (claim_next settings (clock_at 100) unlocked queued)

first_claim :
    claim_next settings (clock_at 100) unlocked queued ≡ ok (some (claim_numbered 1 100), claimed)
unfolding claimed claim_next
first_claim = refl

abbrev paused : ArchiveError
paused = request_budget_exhausted 5000000

abbrev half : Number
half = nonnegative (record { num = 1; pred_den = 1 })

-- The requests are paused at 200, and the session goes back to pending.
released : Store
unfolding transition_failure
released =
    store_of claimed (transition_failure settings 200 (claim_numbered 1 100) paused half claimed)

abbrev release : Transition
release = record {
  claim = claim_numbered 1 100;
  disposition = retryable;
  status = pending;
  failed_at = 200;
  next_retry_at = some 5000000;
  failure = sanitize paused;
}

first_release :
    transition_failure settings 200 (claim_numbered 1 100) paused half claimed
    ≡ ok (release, released)
unfolding released claimed claim_next transition_failure pause_of classify_retry sanitize find_row
    put_row
first_release = refl

-- The session is claimed again at 6000000; the row's attempt was given back, the token was not.
abbrev second : Claim
second = record {
  job_id = 1;
  session_id = 7;
  job_attempt_count = 1;
  session_attempt_token = 2;
  claimed_at = 6000000;
}

claimed_again : Store
unfolding claim_next
claimed_again = store_of released (claim_next settings (clock_at 6000000) unlocked released)

second_claim :
    claim_next settings (clock_at 6000000) unlocked released ≡ ok (some second, claimed_again)
unfolding claimed_again released claimed claim_next transition_failure pause_of classify_retry
    sanitize find_row put_row
second_claim = refl

between : Steps settings claimed released
between = step (fails 200 (claim_numbered 1 100) paused half release first_release) done

all : Steps settings queued claimed_again
all = step (claims (clock_at 100) unlocked (some (claim_numbered 1 100)) first_claim) (
    step (fails 200 (claim_numbered 1 100) paused half release first_release)
      (step (claims (clock_at 6000000) unlocked (some second) second_claim) done))

Steps-Inv_example : Inv 4 claimed_again
Steps-Inv_example = Steps-Inv all queued-Inv

one_runner_example : count (runs_session 7) claimed_again.job_sessions ≤ 1
one_runner_example = one_runner 7 queued-Inv all

fenced_example : Refused settings (claim_numbered 1 100) claimed_again
fenced_example =
    fenced settings queued claimed released claimed_again claimed_again (clock_at 100)
      (clock_at 6000000) unlocked unlocked (claim_numbered 1 100) second first_claim between
      second_claim refl done

paused_gate :
    pause_of settings 200 paused ≡ some (record { next_request_at = 5000000; reason = budget })
unfolding pause_of
paused_gate = refl

-- After the pause of the first claim, a claim at 4999999 takes nothing.
early : claim_next settings (clock_at 4999999) unlocked released ≡ ok (none, released)
unfolding released claimed claim_next transition_failure pause_of classify_retry sanitize find_row
    put_row
early = refl

waiting : Steps settings released released
waiting = step (claims (clock_at 4999999) unlocked none early) done

waiting-ReadBefore : ReadBefore 5000000 waiting
unfolding waiting
waiting-ReadBefore = (omega arith, tt)

pause_holds_example :
    ((row : JobSession) × (find_row 1 7 released.job_sessions ≡ some row)
      × (row.status ≡ pending)
      × (row.next_retry_at ≡ some 5000000)
      × (row.attempt_count ≡ 0))
    × TakeNone waiting
pause_holds_example =
    pause_holds settings 200 (claim_numbered 1 100) paused half
      (record { next_request_at = 5000000; reason = budget }) release claimed released released
      paused_gate first_release waiting waiting-ReadBefore

-- A claim fails in between, which does not open the gate.
soon : claim_next settings (clock_at 1000) unlocked released ≡ ok (none, released)
unfolding released claimed claim_next transition_failure pause_of classify_retry sanitize find_row
    put_row
soon = refl

pacing : Steps settings claimed released
pacing =
    step (fails 200 (claim_numbered 1 100) paused half release first_release)
      (step (claims (clock_at 1000) unlocked none soon) done)

pacing-ReadBefore :
    ReadBefore (100 + microseconds settings.archive_session_min_interval_seconds) pacing
unfolding pacing
pacing-ReadBefore = (tt, (omega arith, tt))

paced_example : TakeNone pacing
paced_example =
    paced settings (clock_at 100) unlocked (claim_numbered 1 100) queued claimed released
      first_claim pacing pacing-ReadBefore

-- The lap data of the session cannot be read, which no retry mends.
ended : Store
unfolding transition_failure
ended =
    store_of claimed
      (transition_failure settings 200 (claim_numbered 1 100) normalization half claimed)

abbrev ending : Transition
ending = record {
  claim = claim_numbered 1 100;
  disposition = terminal;
  status = failed;
  failed_at = 200;
  next_retry_at = none;
  failure = sanitize normalization;
}

first_end :
    transition_failure settings 200 (claim_numbered 1 100) normalization half claimed
    ≡ ok (ending, ended)
unfolding ended claimed claim_next transition_failure pause_of classify_retry sanitize find_row
    put_row
first_end = refl

terminal_fails_example :
    ((row : JobSession) × (find_row 1 7 ended.job_sessions ≡ some row)
      × (row.status ≡ failed)
      × (row.next_retry_at ≡ none))
    × ((ingestion : Ingestion) × (ended.ingestions 7 ≡ some ingestion)
        × (ingestion.status ≡ failed)
        × (ingestion.next_retry_at ≡ none))
terminal_fails_example =
    terminal_fails settings 200 (claim_numbered 1 100) normalization half ending claimed ended
      first_end refl
