-- ===== src/Orchestration/Gates.antt =====
-- The request gate holds the next claims back.
use formula1_dashboard.Common.{
  ℕ, ◌+◌, ◌-◌, ◌≤◌, ◌<◌, ◌≡◌, ◌∙◌, subst, ap, Bool, Option, none, some, List, [], ◌∷◌, ok, arith,
  max, Option-cases, Outcome-cases, inl, inr,
}
use formula1_dashboard.Policy.Number.{Number, microseconds}
use formula1_dashboard.Policy.Settings.{ValidSettings}
use formula1_dashboard.Budget.{Gate, pacing}
use formula1_dashboard.Failures.{ArchiveError, sanitize}
use formula1_dashboard.Store.{Store, JobSession, SessionIdentity, pending, find_row}
use formula1_dashboard.Orchestration.Rows.{Claim}
use formula1_dashboard.Orchestration.Claim.{
  Readings, claim_next, claim_row, first_row, is_claimable,
}
use formula1_dashboard.Orchestration.Heartbeat.{heartbeat}
use formula1_dashboard.Orchestration.Completion.{complete_claim}
use formula1_dashboard.Orchestration.Aggregation.{Aggregation, aggregate}
use formula1_dashboard.Orchestration.Recovery.{
  RecoveredLease, Environment, recover_row, recover_job, recover_ingestion, expire_lease,
  recovered_outcome, recover_rows, recover_stale, stale_rows,
}
use formula1_dashboard.Orchestration.Failure.{
  Transition, Decision, decide, decide_retry, decide_pause, pause_of, transition_failure,
  failed_row,
}
use formula1_dashboard.Orchestration.Writes.{transition_failure-writes}
use formula1_dashboard.Orchestration.Owned.{Written-found}
use formula1_dashboard.Orchestration.Steps.{
  Step, Steps, claims, beats, fails, completes, recovers, aggregates, plans, done, step,
}
use formula1_dashboard.Planning.Ensure.{World}
use formula1_dashboard.Planning.Writes.{plan_once-PlannedOnce, Planned-Queued}

-- The gate is there, and lets no claim through before a limit.
record IsShut (limit : ℕ) (db : Store) : Type 0 where
  gate : Gate
  found : db.gate ≡ some gate
  late : limit ≤ gate.next_request_at

IsShut-same : (limit : ℕ) (db db' : Store) → db'.gate ≡ db.gate → IsShut limit db → IsShut limit db'
IsShut-same limit db db' e c = record { gate = c.gate; found = e ∙ c.found; late = c.late }

-- What a claim finds at a gate that is shut.
claim_next-IsShut :
    (s : ValidSettings) (clock : Readings) (locked : JobSession → Bool) (limit : ℕ) (db db' : Store)
    (r : Option Claim)
    → IsShut limit db
    → clock.read_at < limit
    → claim_next s clock locked db ≡ ok (r, db')
    → (r ≡ none) × (db' ≡ db)
unfolding claim_next
claim_next-IsShut s clock locked limit db db' r c early h = ground (arith, c.found, c.late)

decide-IsShut :
    (s : ValidSettings) (at limit : ℕ) (claim : Claim) (error : ArchiveError) (jitter : Number)
    (row : JobSession) (pause gate : Option Gate) (d : Decision) (g : Gate)
    → decide s at claim error jitter row pause gate ≡ ok d
    → gate ≡ some g
    → limit ≤ g.next_request_at
    → (g' : Gate) × (d.gate ≡ some g') × (limit ≤ g'.next_request_at)
unfolding decide decide_retry decide_pause
decide-IsShut s at limit claim error jitter row none gate d g h e late = (g, ground arith, late)
decide-IsShut s at limit claim error jitter row (some pause) none d g h e late = absurd (cc)
decide-IsShut s at limit claim error jitter row (some pause) (some gate) d g h e late = (
  record {
    next_request_at = max gate.next_request_at pause.next_request_at;
    reason = pause.reason;
  },
  ground arith,
  ground arith,
)

heartbeat-gate :
    (now t : ℕ) (claim : Claim) (db db' : Store)
    → heartbeat now claim db ≡ ok (t, db')
    → db'.gate ≡ db.gate
unfolding heartbeat
heartbeat-gate now t claim db db' h = ground arith

complete_claim-gate :
    (now : ℕ) (at source_updated : Option ℕ) (expected : Option SessionIdentity)
    (foreign_rows : Bool) (t : ℕ) (claim : Claim) (db db' : Store)
    → complete_claim now at source_updated expected foreign_rows claim db ≡ ok (t, db')
    → db'.gate ≡ db.gate
unfolding complete_claim
complete_claim-gate now at source_updated expected foreign_rows t claim db db' h = ground arith

aggregate-gate :
    (now id : ℕ) (a : Aggregation) (db db' : Store)
    → aggregate now id db ≡ ok (a, db')
    → db'.gate ≡ db.gate
unfolding aggregate
aggregate-gate now id a db db' h = ground arith

module _ (s : ValidSettings) where
  recover_row-gate :
      (now : ℕ) (jitter : Number) (j k : ℕ) (db db' : Store) (r : Option RecoveredLease)
      → recover_row s now jitter j k db ≡ ok (r, db')
      → db'.gate ≡ db.gate
  unfolding recover_row recover_job recover_ingestion expire_lease
  recover_row-gate now jitter j k db db' r h = elim (Option-cases (find_row j k db.job_sessions)) [
    | inl e ↦ ground arith
    | inr (row, e) ↦ elim (Option-cases (db.jobs row.job_id)) [
      | inl e' ↦ ground arith
      | inr (job, e') ↦ elim (Option-cases (db.ingestions row.session_id)) [
        | inl e'' ↦ ground arith
        | inr (i, e'') ↦ elim (Outcome-cases (recovered_outcome s now jitter row)) [
          | inr bad ↦ ground arith
          | inl (o, good) ↦ ground arith
        ]
      ]
    ]
  ]

  recover_rows-gate :
      (env : Environment) (round : ℕ) (rows : List JobSession) (db db' : Store)
      (leases : List RecoveredLease)
      → recover_rows s env round rows db ≡ ok (leases, db')
      → db'.gate ≡ db.gate
  unfolding recover_rows
  recover_rows-gate env round [] db db' leases h = ground arith
  recover_rows-gate env round (row ∷ rows) db db' leases h =
      elim (Outcome-cases
        (recover_row s (env.recovered_at round) (env.jitter round) row.job_id row.session_id db)) [
          | inr bad ↦ absurd (ground arith)
          | inl ((r, mid), first) ↦ elim (Outcome-cases (recover_rows s env (round + 1) rows mid)) [
            | inr bad ↦ absurd (ground arith)
            | inl ((more, last), rest) ↦ ground (
              arith,
              recover_row-gate (env.recovered_at round) (env.jitter round) row.job_id row.session_id
                  db mid r first,
              recover_rows-gate env (round + 1) rows mid last more rest,
            )
          ]
        ]

  recover_stale-gate :
      (env : Environment) (batch_size : ℕ) (db db' : Store) (leases : List RecoveredLease)
      → recover_stale s env batch_size db ≡ ok (leases, db')
      → db'.gate ≡ db.gate
  unfolding recover_stale
  recover_stale-gate env batch_size db db' leases h =
      recover_rows-gate env 0 (stale_rows s env batch_size db) db db' leases ground arith

-- The claims of a sequence all read the clock before a limit.
abbrev pub StepReadsBefore : ℕ → {s : ValidSettings} {db db' : Store} → Step s db db' → Type 0
StepReadsBefore limit (claims clock locked r h) = clock.read_at < limit
StepReadsBefore limit (beats now t claim h) = Unit
StepReadsBefore limit (fails at claim error jitter t h) = Unit
StepReadsBefore limit (completes now at source_updated expected foreign_rows t claim h) = Unit
StepReadsBefore limit (recovers env batch_size leases h) = Unit
StepReadsBefore limit (aggregates now id a h) = Unit
StepReadsBefore limit (plans utc_year year inputs loaded cat cat' p pos h) = Unit

abbrev pub ReadBefore : ℕ → {s : ValidSettings} {db db' : Store} → Steps s db db' → Type 0
ReadBefore limit done = Unit
ReadBefore limit (step one more) = StepReadsBefore limit one × ReadBefore limit more

-- No claim of a sequence takes a job-session.
abbrev pub StepTakesNone : {s : ValidSettings} {db db' : Store} → Step s db db' → Type 0
StepTakesNone (claims clock locked r h) = r ≡ none
StepTakesNone (beats now t claim h) = Unit
StepTakesNone (fails at claim error jitter t h) = Unit
StepTakesNone (completes now at source_updated expected foreign_rows t claim h) = Unit
StepTakesNone (recovers env batch_size leases h) = Unit
StepTakesNone (aggregates now id a h) = Unit
StepTakesNone (plans utc_year year inputs loaded cat cat' p pos h) = Unit

abbrev pub TakeNone : {s : ValidSettings} {db db' : Store} → Steps s db db' → Type 0
TakeNone done = Unit
TakeNone (step one more) = StepTakesNone one × TakeNone more

Step-IsShut :
    (limit : ℕ) {s : ValidSettings} {db db' : Store} (one : Step s db db')
    → StepReadsBefore limit one
    → IsShut limit db
    → IsShut limit db' × StepTakesNone one
Step-IsShut limit {s} {db} {db'} (claims clock locked r h) early c =
    let (taken, same) = claim_next-IsShut s clock locked limit db db' r c early h in
    (IsShut-same limit db db' (ap (λ d. d.gate) same) c, taken)
Step-IsShut limit {s} {db} {db'} (beats now t claim h) early c =
    (IsShut-same limit db db' (heartbeat-gate now t claim db db' h) c, tt)
Step-IsShut limit {s} {db} {db'} (fails at claim error jitter t h) early c =
    let (row, d, w, follows) = transition_failure-writes s at claim error jitter t db db' h in
    let (g, found, late) =
      decide-IsShut s at limit claim error jitter row (pause_of s at error) db.gate d c.gate
        follows.decided c.found c.late in
    (record { gate = g; found = follows.gate ∙ found; late = late }, tt)
Step-IsShut limit {s} {db} {db'} (completes now at source_updated expected foreign_rows t claim h)
      early c =
    (
      IsShut-same limit db db'
          (complete_claim-gate now at source_updated expected foreign_rows t claim db db' h) c,
      tt,
    )
Step-IsShut limit {s} {db} {db'} (recovers env batch_size leases h) early c =
    (IsShut-same limit db db' (recover_stale-gate s env batch_size db db' leases h) c, tt)
Step-IsShut limit {s} {db} {db'} (aggregates now id a h) early c =
    (IsShut-same limit db db' (aggregate-gate now id a db db' h) c, tt)
Step-IsShut limit {s} {db} {db'} (plans utc_year year inputs loaded cat cat' p pos h) early c =
    let world : World = record { catalogue = cat; store = db } in
    let world' : World = record { catalogue = cat'; store = db' } in
    let w = plan_once-PlannedOnce s inputs world p world' utc_year year loaded h in
    (IsShut-same limit db db' ((Planned-Queued w.planned).gate ∙ w.same_gate) c, tt)

Steps-IsShut :
    (limit : ℕ) {s : ValidSettings} {db db' : Store} (steps : Steps s db db')
    → ReadBefore limit steps
    → IsShut limit db
    → TakeNone steps
Steps-IsShut limit done early c = tt
Steps-IsShut limit (step one more) early c =
    let (next, taken) = Step-IsShut limit one early.0 c in
    (taken, Steps-IsShut limit more early.1 next)

decide-pause :
    (s : ValidSettings) (at : ℕ) (claim : Claim) (error : ArchiveError) (jitter : Number)
    (row : JobSession) (pause : Gate) (gate : Option Gate) (d : Decision)
    → decide s at claim error jitter row (some pause) gate ≡ ok d
    → (d.status ≡ pending)
      × (d.next_retry_at ≡ some pause.next_request_at)
      × (d.attempt_count ≡ row.attempt_count - 1)
      × ((g : Gate) × (d.gate ≡ some g) × (pause.next_request_at ≤ g.next_request_at))
unfolding decide decide_pause
decide-pause s at claim error jitter row pause none d h = cc
decide-pause s at claim error jitter row pause (some gate) d h = (
  ground arith,
  ground arith,
  ground arith,
  (
    record {
      next_request_at = max gate.next_request_at pause.next_request_at;
      reason = pause.reason;
    },
    ground arith,
    omega arith,
  ),
)

-- A failure that pauses the requests leaves its job-session pending in the table, with the attempt
-- given back and a retry at the end of the pause. In every sequence of operations that follows, later
-- failures included, no claim takes any job-session as long as the claims read the clock before the
-- end of the pause.
pub pause_holds :
    (s : ValidSettings) (at : ℕ) (claim : Claim) (error : ArchiveError) (jitter : Number)
    (pause : Gate) (t : Transition) (db db' db'' : Store)
    → pause_of s at error ≡ some pause
    → transition_failure s at claim error jitter db ≡ ok (t, db')
    → (steps : Steps s db' db'') → ReadBefore pause.next_request_at steps
    → ((row : JobSession) × (find_row claim.job_id claim.session_id db'.job_sessions ≡ some row)
        × (row.status ≡ pending)
        × (row.next_retry_at ≡ some pause.next_request_at)
        × (row.attempt_count ≡ claim.job_attempt_count - 1))
      × TakeNone steps
pause_holds s at claim error jitter pause t db db' db'' asks h steps early =
    let (row, d, w, follows) = transition_failure-writes s at claim error jitter t db db' h in
    let (status, retry, attempts, (g, gate, late)) =
      decide-pause s at claim error jitter row pause db.gate d
        (subst (λ p. decide s at claim error jitter row p db.gate ≡ ok d) asks follows.decided) in
    (
      (
        failed_row d (sanitize error) row,
        Written-found claim db db' row (failed_row d (sanitize error) row) w,
        status,
        retry,
        ground (arith, attempts, w.owned.row_attempt),
      ),
      Steps-IsShut pause.next_request_at steps early
          (record { gate = g; found = follows.gate ∙ gate; late = late }),
    )

claim_row-gate :
    (s : ValidSettings) (clock : Readings) (db db' : Store) (row : JobSession) (c : Claim)
    → claim_row s clock db row ≡ ok (some c, db')
    → IsShut (clock.claimed_at + microseconds s.archive_session_min_interval_seconds) db'
unfolding claim_row
claim_row-gate s clock db db' row c h = record {
  gate = record {
    next_request_at = clock.claimed_at + microseconds s.archive_session_min_interval_seconds;
    reason = pacing;
  };
  found = ground arith;
  late = omega arith;
}

claim_next-gate :
    (s : ValidSettings) (clock : Readings) (locked : JobSession → Bool) (c : Claim) (db db' : Store)
    → claim_next s clock locked db ≡ ok (some c, db')
    → IsShut (clock.claimed_at + microseconds s.archive_session_min_interval_seconds) db'
unfolding claim_next
claim_next-gate s clock locked c db db' h =
    elim (Option-cases
      (first_row (is_claimable s clock.transaction_at locked db) db.job_sessions)) [
        | inl e ↦ absurd (ground arith)
        | inr (row, e) ↦ claim_row-gate s clock db db' row c ground arith
      ]

-- After a claim that took a job-session, in every sequence of operations that follows, no claim takes
-- one as long as the claims read the clock before the minimum interval has passed.
pub paced :
    (s : ValidSettings) (clock : Readings) (locked : JobSession → Bool) (c : Claim)
    (db db' db'' : Store)
    → claim_next s clock locked db ≡ ok (some c, db')
    → (steps : Steps s db' db'')
    → ReadBefore (clock.claimed_at + microseconds s.archive_session_min_interval_seconds) steps
    → TakeNone steps
paced s clock locked c db db' db'' h steps early =
    Steps-IsShut (clock.claimed_at + microseconds s.archive_session_min_interval_seconds) steps
      early (claim_next-gate s clock locked c db db' h)
