-- ===== src/Orchestration/Narrows.antt =====
-- No operation adds a job, removes one, moves one to another season or makes one active again.
use formula1_dashboard.Common.{
  ℕ, ◌+◌, ◌≡◌, ◌∙◌, refl, Bool, true, Option, some, List, [], ◌∷◌, ok, arith, is_none,
  Outcome-cases, Option-cases, Bool-cases, inl, inr, ◌⊎◌, subst, ltb, leb, ◌&&◌,
}
use formula1_dashboard.Policy.Number.{Number}
use formula1_dashboard.Policy.Settings.{ValidSettings}
use formula1_dashboard.Failures.{ArchiveError}
use formula1_dashboard.Store.{
  Store, Job, JobSession, Ingestion, SessionIdentity, is_active_for, find_row, is_archive,
  is_running,
}
use formula1_dashboard.Orchestration.Rows.{Claim, running_job}
use formula1_dashboard.Orchestration.Claim.{
  Readings, claim_next, claim_row, first_row, is_claimable,
}
use formula1_dashboard.Orchestration.Heartbeat.{heartbeat}
use formula1_dashboard.Orchestration.Failure.{Transition, transition_failure}
use formula1_dashboard.Orchestration.Completion.{complete_claim}
use formula1_dashboard.Orchestration.Recovery.{
  RecoveredLease, Environment, recover_stale, recover_rows, recover_row, recover_job,
  recover_ingestion, expire_lease, recovered_outcome, stale_rows, is_expired,
}
use formula1_dashboard.Orchestration.Aggregation.{
  Aggregation, aggregate, aggregated_job, error_job, timed_job, rows_of,
}

-- A job that is changed stays in its place: it is there before and after, and active for a season
-- after the change only if it was before.
pub record NarrowsJob (before after : Option Job) : Type 0 where
  pub kept : is_none after ≡ is_none before
  pub narrow : (year : ℕ) → is_active_for year after ≡ true → is_active_for year before ≡ true

pub record Narrows (db db' : Store) : Type 0 where
  pub ids : db'.job_ids ≡ db.job_ids
  pub each : (id : ℕ) → NarrowsJob (db.jobs id) (db'.jobs id)

Narrows-refl : (db : Store) → Narrows db db
Narrows-refl db = record { ids = refl; each = λ id. record { kept = refl; narrow = λ year h. h } }

Narrows-trans : (a b c : Store) → Narrows a b → Narrows b c → Narrows a c
Narrows-trans a b c f g = record {
  ids = g.ids ∙ f.ids;
  each = λ id. record {
    kept = (g.each id).kept ∙ (f.each id).kept;
    narrow = λ year h. (f.each id).narrow year ((g.each id).narrow year h);
  };
}

pub heartbeat-Narrows :
    (now t : ℕ) (claim : Claim) (db db' : Store)
    → heartbeat now claim db ≡ ok (t, db')
    → Narrows db db'
unfolding heartbeat running_job
heartbeat-Narrows now t claim db db' h = record {
  ids = ground arith;
  each = λ id. record { kept = ground arith; narrow = λ year active. ground arith };
}

pub complete_claim-Narrows :
    (now : ℕ) (at source_updated : Option ℕ) (expected : Option SessionIdentity)
    (foreign_rows : Bool) (t : ℕ) (claim : Claim) (db db' : Store)
    → complete_claim now at source_updated expected foreign_rows claim db ≡ ok (t, db')
    → Narrows db db'
unfolding complete_claim running_job
complete_claim-Narrows now at source_updated expected foreign_rows t claim db db' h = record {
  ids = ground arith;
  each = λ id. record { kept = ground arith; narrow = λ year active. ground arith };
}

pub transition_failure-Narrows :
    (s : ValidSettings) (at : ℕ) (claim : Claim) (error : ArchiveError) (jitter : Number)
    (t : Transition) (db db' : Store)
    → transition_failure s at claim error jitter db ≡ ok (t, db')
    → Narrows db db'
unfolding transition_failure
transition_failure-Narrows s at claim error jitter t db db' h =
    let jobs : db'.jobs ≡ db.jobs = ground arith in
    record {
      ids = ground arith;
      each = λ id. record { kept = ground arith; narrow = λ year active. ground arith };
    }

aggregated_job-season :
    (rows : List JobSession) (now : ℕ) (job : Job)
    → (aggregated_job rows now job).season_year ≡ job.season_year
unfolding aggregated_job error_job timed_job
aggregated_job-season rows now job = ground arith

aggregated_job-NarrowsJob :
    (rows : List JobSession) (now : ℕ) (job : Job)
    → NarrowsJob (some job) (some (aggregated_job rows now job))
unfolding aggregated_job
aggregated_job-NarrowsJob rows now job = record {
  kept = refl;
  narrow = λ year active. ground (arith, aggregated_job-season rows now job);
}

pub aggregate-Narrows :
    (now id : ℕ) (a : Aggregation) (db db' : Store)
    → aggregate now id db ≡ ok (a, db')
    → Narrows db db'
unfolding aggregate
aggregate-Narrows now id a db db' h = elim (Option-cases (db.jobs id)) [
  | inl e ↦ absurd (ground arith)
  | inr (job, e) ↦
      let same = aggregated_job-NarrowsJob (rows_of id db.job_sessions) now job in
      record {
        ids = ground arith;
        each = λ k. record {
          kept = ground arith;
          narrow = λ year active. ground (arith, same.narrow year);
        };
      }
]

module _ (s : ValidSettings) (clock : Readings) (db db' : Store) where
  claim_row-Narrows :
      (row : JobSession) (c : Option Claim)
      → claim_row s clock db row ≡ ok (c, db')
      → Narrows db db'
  unfolding claim_row
  claim_row-Narrows row c h = record {
    ids = ground arith;
    each = λ id. record { kept = ground arith; narrow = λ year active. ground arith };
  }

  pub claim_next-Narrows :
      (locked : JobSession → Bool) (c : Option Claim)
      → claim_next s clock locked db ≡ ok (c, db')
      → Narrows db db'
  unfolding claim_next
  claim_next-Narrows locked c h =
      elim (Option-cases
        (first_row (is_claimable s clock.transaction_at locked db) db.job_sessions)) [
          | inl e ↦ let same : db' ≡ db = ground arith in rw same (Narrows-refl db)
          | inr (row, e) ↦ elim (Option-cases db.gate) [
            | inl closed ↦ absurd (ground arith)
            | inr (gate, e') ↦ elim (Bool-cases (ltb clock.read_at gate.next_request_at)) [
              | inl early ↦ let same : db' ≡ db = ground arith in rw same (Narrows-refl db)
              | inr later ↦ claim_row-Narrows row c (ground arith)
            ]
          ]
        ]

module _ (s : ValidSettings) where
  expire_lease-Narrows :
      (now : ℕ) (jitter : Number) (job : Job) (row : JobSession) (i : Ingestion) (db db' : Store)
      (r : Option RecoveredLease)
      → db.jobs row.job_id ≡ some job
      → expire_lease s now jitter job row i db ≡ ok (r, db')
      → Narrows db db'
  unfolding expire_lease
  expire_lease-Narrows now jitter job row i db db' r e h =
      elim (Outcome-cases (recovered_outcome s now jitter row)) [
        | inr bad ↦ absurd (ground arith)
        | inl (o, e') ↦ record {
          ids = ground arith;
          each = λ id. record { kept = ground arith; narrow = λ year active. ground arith };
        }
      ]

  recover_ingestion-Narrows :
      (now : ℕ) (jitter : Number) (job : Job) (row : JobSession) (db db' : Store)
      (r : Option RecoveredLease)
      → db.jobs row.job_id ≡ some job
      → recover_ingestion s now jitter job row (db.ingestions row.session_id) db ≡ ok (r, db')
      → (db' ≡ db) ⊎ Narrows db db'
  unfolding recover_ingestion
  recover_ingestion-Narrows now jitter job row db db' r found h =
      elim (Option-cases (db.ingestions row.session_id)) [
        | inl e ↦ inl (ground arith)
        | inr (i, e) ↦
            elim (Bool-cases (
              is_archive i.source
              && is_running i.status
              && leb 1 row.attempt_count
              && is_expired s now i.heartbeat_at)) [
                | inr keep ↦ inl (ground arith)
                | inl over ↦
                    inr (expire_lease-Narrows now jitter job row i db db' r found (ground arith))
              ]
      ]

  recover_row-Narrows :
      (now : ℕ) (jitter : Number) (j k : ℕ) (db db' : Store) (r : Option RecoveredLease)
      → recover_row s now jitter j k db ≡ ok (r, db')
      → (db' ≡ db) ⊎ Narrows db db'
  unfolding recover_row recover_job
  recover_row-Narrows now jitter j k db db' r h =
      elim (Option-cases (find_row j k db.job_sessions)) [
        | inl e ↦ inl (ground arith)
        | inr (row, e) ↦ elim (Option-cases (db.jobs row.job_id)) [
          | inl e' ↦ inl (ground arith)
          | inr (job, e') ↦ elim (Bool-cases (is_running job.status)) [
            | inr over ↦ inl (ground arith)
            | inl active ↦ recover_ingestion-Narrows now jitter job row db db' r e' (ground arith)
          ]
        ]
      ]

  same-Narrows : (db db' : Store) → (db' ≡ db) ⊎ Narrows db db' → Narrows db db'
  same-Narrows db db' (inl e) = rw e (Narrows-refl db)
  same-Narrows db db' (inr n) = n

  recover_rows-Narrows :
      (env : Environment) (round : ℕ) (rows : List JobSession) (db db' : Store)
      (leases : List RecoveredLease)
      → recover_rows s env round rows db ≡ ok (leases, db')
      → Narrows db db'
  unfolding recover_rows
  recover_rows-Narrows env round [] db db' leases h = same-Narrows db db' (inl (ground arith))
  recover_rows-Narrows env round (row ∷ rows) db db' leases h =
      elim (Outcome-cases
        (recover_row s (env.recovered_at round) (env.jitter round) row.job_id row.session_id db)) [
          | inr bad ↦ absurd (ground arith)
          | inl ((r, mid), first) ↦ elim (Outcome-cases (recover_rows s env (round + 1) rows mid)) [
            | inr bad ↦ absurd (ground arith)
            | inl ((more, last), rest) ↦
                let e : last ≡ db' = ground arith in
                subst (Narrows db) e (
                  Narrows-trans db mid last
                    (same-Narrows db mid (
                      recover_row-Narrows (env.recovered_at round) (env.jitter round) row.job_id
                        row.session_id db mid r first))
                    (recover_rows-Narrows env (round + 1) rows mid last more rest))
          ]
        ]

  pub recover_stale-Narrows :
      (env : Environment) (batch_size : ℕ) (db db' : Store) (leases : List RecoveredLease)
      → recover_stale s env batch_size db ≡ ok (leases, db')
      → Narrows db db'
  unfolding recover_stale
  recover_stale-Narrows env batch_size db db' leases h =
      recover_rows-Narrows env 0 (stale_rows s env batch_size db) db db' leases (ground arith)
