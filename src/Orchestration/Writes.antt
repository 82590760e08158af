-- ===== src/Orchestration/Writes.antt =====
-- What the operations under a claim write.
use formula1_dashboard.Common.{
  ℕ, ◌≤◌, ◌≡◌, refl, ◌∙◌, sym, ap, Bool, true, Option, none, some, ok, err, arith, inl, inr, ◌⊎◌,
  Outcome-cases,
}
use formula1_dashboard.Policy.Number.{Number}
use formula1_dashboard.Policy.Settings.{ValidSettings}
use formula1_dashboard.Budget.{Gate}
use formula1_dashboard.Failures.{ArchiveError, sanitize}
use formula1_dashboard.Store.{
  Store, JobSession, Ingestion, SessionIdentity, StoreError, completed, is_running, put_row, update,
}
use formula1_dashboard.Store.Rows.{find_row-key}
use formula1_dashboard.Orchestration.Rows.{Claim, owned_row, owned_ingestion}
use formula1_dashboard.Orchestration.Heartbeat.{heartbeat}
use formula1_dashboard.Orchestration.Failure.{
  Transition, Decision, decide, decide_retry, decide_pause, failed_row, failed_ingestion, pause_of,
  transition_failure,
}
use formula1_dashboard.Orchestration.Completion.{complete_claim, completed_row, completed_ingestion}
use formula1_dashboard.Orchestration.Owned.{owned_row-Owned, Written}

-- A write of one status to both rows that a claim owns.
pub write_owned :
    (claim : Claim) (db db' : Store) (row new : JobSession) (ingestion after : Ingestion)
    → owned_row claim db ≡ ok row
    → owned_ingestion claim db ≡ ok ingestion
    → new.job_id ≡ row.job_id
    → new.session_id ≡ row.session_id
    → db'.job_sessions ≡ put_row new db.job_sessions
    → db'.ingestions ≡ update db.ingestions claim.session_id (some after)
    → (is_running row.status ≡ true
        → is_running ingestion.status ≡ true
        → is_running new.status ≡ is_running after.status)
    → after.attempt_count ≡ ingestion.attempt_count
    → new.attempt_count ≤ row.attempt_count
    → Written claim db db' row new
write_owned claim db db' row new ingestion after got_row got j n rows ingestions together token
      attempts =
    let owned = owned_row-Owned claim db row ingestion got_row got in
    let key = find_row-key claim.job_id claim.session_id db.job_sessions row owned.row_found in
    record {
      before = ingestion;
      after = after;
      owned = owned;
      same_job = j ∙ key.0;
      same_session = n ∙ key.1;
      rows = rows;
      ingestions = ingestions;
      together = together (ap is_running owned.row_running) (ap is_running owned.ingestion_running);
      token_kept = token;
      attempts_kept = attempts;
    }

-- Whether both rows are there.
owned_rows :
    (claim : Claim) (db : Store)
    → ((row : JobSession) × (ingestion : Ingestion) × (owned_row claim db ≡ ok row)
        × (owned_ingestion claim db ≡ ok ingestion))
      ⊎ (((e : StoreError) × (owned_row claim db ≡ err e))
          ⊎ ((e : StoreError) × (owned_ingestion claim db ≡ err e)))
owned_rows claim db = elim (Outcome-cases (owned_row claim db)) [
  | inr bad ↦ inr (inl bad)
  | inl (row, e) ↦ elim (Outcome-cases (owned_ingestion claim db)) [
    | inr bad ↦ inr (inr bad)
    | inl (ingestion, e') ↦ inl (row, ingestion, e, e')
  ]
]

heartbeat-writes_at :
    (now t : ℕ) (claim : Claim) (db db' : Store) (row : JobSession) (ingestion : Ingestion)
    → owned_row claim db ≡ ok row
    → owned_ingestion claim db ≡ ok ingestion
    → heartbeat now claim db ≡ ok (t, db')
    → (db'.job_sessions ≡ put_row (record row { heartbeat_at = some now }) db.job_sessions)
      × (db'.ingestions
          ≡ update db.ingestions claim.session_id
              (some (record ingestion { heartbeat_at = some now })))
unfolding heartbeat
heartbeat-writes_at now t claim db db' row ingestion got_row got h = ground arith

pub heartbeat-writes :
    (now t : ℕ) (claim : Claim) (db db' : Store)
    → heartbeat now claim db ≡ ok (t, db')
    → (row : JobSession) × Written claim db db' row (record row { heartbeat_at = some now })
unfolding heartbeat
heartbeat-writes now t claim db db' h = elim (owned_rows claim db) [
  | inl (row, ingestion, got_row, got) ↦
      let (rows, ingestions) = heartbeat-writes_at now t claim db db' row ingestion got_row got h in
      (
        row,
        write_owned claim db db' row (record row { heartbeat_at = some now }) ingestion
            (record ingestion { heartbeat_at = some now }) got_row got refl refl rows ingestions
            (λ a b. a ∙ sym b) refl (omega arith),
      )
  | inr (inl bad) ↦ absurd (ground arith)
  | inr (inr bad) ↦ absurd (ground arith)
]

complete_claim-writes_at :
    (now : ℕ) (at source_updated : Option ℕ) (expected : Option SessionIdentity)
    (foreign_rows : Bool) (t : ℕ) (claim : Claim) (db db' : Store) (row : JobSession)
    (ingestion : Ingestion)
    → owned_row claim db ≡ ok row
    → owned_ingestion claim db ≡ ok ingestion
    → complete_claim now at source_updated expected foreign_rows claim db ≡ ok (t, db')
    → (db'.job_sessions ≡ put_row (completed_row t row) db.job_sessions)
      × (db'.ingestions
          ≡ update db.ingestions claim.session_id
              (some (completed_ingestion t source_updated ingestion)))
unfolding complete_claim
complete_claim-writes_at now at source_updated expected foreign_rows t claim db db' row ingestion
      got_row got h =
    ground arith

pub complete_claim-writes :
    (now : ℕ) (at source_updated : Option ℕ) (expected : Option SessionIdentity)
    (foreign_rows : Bool) (t : ℕ) (claim : Claim) (db db' : Store)
    → complete_claim now at source_updated expected foreign_rows claim db ≡ ok (t, db')
    → (row : JobSession) × Written claim db db' row (completed_row t row)
unfolding complete_claim
complete_claim-writes now at source_updated expected foreign_rows t claim db db' h =
    elim (owned_rows claim db) [
      | inl (row, ingestion, got_row, got) ↦
          let (rows, ingestions) =
            complete_claim-writes_at now at source_updated expected foreign_rows t claim db db' row
              ingestion got_row got h in
          (
            row,
            write_owned claim db db' row (completed_row t row) ingestion
                (completed_ingestion t source_updated ingestion) got_row got refl refl rows
                ingestions (λ _ _. refl) refl (omega arith),
          )
      | inr (inl bad) ↦ absurd (ground arith)
      | inr (inr bad) ↦ absurd (ground arith)
    ]

-- The ingestion of a completed claim.
pub complete_claim-ingestion :
    (now : ℕ) (at source_updated : Option ℕ) (expected : Option SessionIdentity)
    (foreign_rows : Bool) (t : ℕ) (claim : Claim) (db db' : Store)
    → complete_claim now at source_updated expected foreign_rows claim db ≡ ok (t, db')
    → (i : Ingestion) × (db'.ingestions claim.session_id ≡ some i) × (i.status ≡ completed)
unfolding complete_claim
complete_claim-ingestion now at source_updated expected foreign_rows t claim db db' h =
    elim (owned_rows claim db) [
      | inl (row, ingestion, got_row, got) ↦ (
        completed_ingestion t source_updated ingestion,
        rw
            (complete_claim-writes_at now at source_updated expected foreign_rows t claim db db' row
              ingestion got_row got h).1
            ground arith,
        refl,
      )
      | inr (inl bad) ↦ absurd (ground arith)
      | inr (inr bad) ↦ absurd (ground arith)
    ]

decide-attempts :
    (s : ValidSettings) (at : ℕ) (claim : Claim) (error : ArchiveError) (jitter : Number)
    (row : JobSession) (pause gate : Option Gate) (d : Decision)
    → decide s at claim error jitter row pause gate ≡ ok d
    → d.attempt_count ≤ row.attempt_count
unfolding decide decide_retry decide_pause
decide-attempts s at claim error jitter row none gate d h = ground arith
decide-attempts s at claim error jitter row (some pause) none d h = cc
decide-attempts s at claim error jitter row (some pause) (some gate) d h = ground arith

module _ (s : ValidSettings) (at : ℕ) (claim : Claim) (error : ArchiveError) (jitter : Number)
    (t : Transition) (db db' : Store) where
  -- How the answer and the gate follow the decision.
  pub record Follows (d : Decision) (row : JobSession) : Type 0 where
    pub decided : decide s at claim error jitter row (pause_of s at error) db.gate ≡ ok d
    pub gate : db'.gate ≡ d.gate
    pub status : t.status ≡ d.status
    pub retry : t.next_retry_at ≡ d.next_retry_at
    pub reported : t.failure ≡ sanitize error
    pub ingestion : Ingestion
    pub ingestions :
        db'.ingestions
        ≡ update db.ingestions claim.session_id
            (some (failed_ingestion d (sanitize error) ingestion))

  transition_failure-writes_at :
      (row : JobSession) (ingestion : Ingestion) (d : Decision)
      → owned_row claim db ≡ ok row
      → owned_ingestion claim db ≡ ok ingestion
      → decide s at claim error jitter row (pause_of s at error) db.gate ≡ ok d
      → transition_failure s at claim error jitter db ≡ ok (t, db')
      → (db'.job_sessions ≡ put_row (failed_row d (sanitize error) row) db.job_sessions)
        × (db'.ingestions
            ≡ update db.ingestions claim.session_id
                (some (failed_ingestion d (sanitize error) ingestion)))
        × (db'.gate ≡ d.gate)
        × (t.status ≡ d.status)
        × (t.next_retry_at ≡ d.next_retry_at)
        × (t.failure ≡ sanitize error)
  unfolding transition_failure
  transition_failure-writes_at row ingestion d got_row got decided h = ground arith

  pub transition_failure-writes :
      transition_failure s at claim error jitter db ≡ ok (t, db')
      → (row : JobSession) × (d : Decision) × Written claim db db' row
          (failed_row d (sanitize error) row)
        × Follows d row
  unfolding transition_failure
  transition_failure-writes h = elim (owned_rows claim db) [
    | inr (inl bad) ↦ absurd (ground arith)
    | inr (inr bad) ↦ absurd (ground arith)
    | inl (row, ingestion, got_row, got) ↦
        elim (Outcome-cases (decide s at claim error jitter row (pause_of s at error) db.gate)) [
          | inr bad ↦ absurd (ground arith)
          | inl (d, decided) ↦
              let (rows, ingestions, gate, status, retry, reported) =
                transition_failure-writes_at row ingestion d got_row got decided h in
              (
                row,
                d,
                write_owned claim db db' row (failed_row d (sanitize error) row) ingestion
                    (failed_ingestion d (sanitize error) ingestion) got_row got refl refl rows
                    ingestions (λ _ _. refl) refl
                    (decide-attempts s at claim error jitter row (pause_of s at error) db.gate d
                      decided),
                record {
                  decided = decided;
                  gate = gate;
                  status = status;
                  retry = retry;
                  reported = reported;
                  ingestion = ingestion;
                  ingestions = ingestions;
                },
              )
        ]
  ]
