-- ===== src/Orchestration/Keeps/Recoveries.antt =====
-- A recovery keeps the invariant.
use formula1_dashboard.Common.{
  ℕ, ◌+◌, ◌≡◌, refl, subst, sym, true, Option, some, List, [], ◌∷◌, ok, arith, All, ◌&&◌, leb,
  Outcome-cases, Option-cases, inl, inr, is_none, Bool-cases, ◌⊎◌,
}
use formula1_dashboard.Policy.Number.{Number}
use formula1_dashboard.Policy.Settings.{ValidSettings}
use formula1_dashboard.Store.{
  Store, Job, JobSession, Ingestion, Status, is_running, is_archive, find_row, put_row, UniqueRows,
}
use formula1_dashboard.Store.Rows.{find_row-All}
use formula1_dashboard.Orchestration.Rows.{Claim}
use formula1_dashboard.Orchestration.Recovery.{
  RecoveredLease, Environment, recovered_outcome, recovered_row, recovered_ingestion, recover_job,
  recover_ingestion, expire_lease, recover_row, recover_rows, recover_stale, stale_rows, is_expired,
}
use formula1_dashboard.Orchestration.Invariant.{IsBudgeted, Inv}
use formula1_dashboard.Orchestration.Owned.{Written}
use formula1_dashboard.Orchestration.Keeps.Leases.{Inv-Written}
use formula1_dashboard.Orchestration.Stale.{Stands, Stands-put_row, stale_rows-Stands}

-- What a round does to the tables.
record Round (s : ValidSettings) (now : ℕ) (jitter : Number) (row : JobSession) (db db' : Store)
    : Type 0 where
  claim : Claim
  status : Status
  retry : Option ℕ
  wrote : Written claim db db' row (recovered_row status retry row)
  decided : recovered_outcome s now jitter row ≡ ok (status, retry)

-- The claim that an expired lease stood for.
abbrev claim_of : JobSession → Ingestion → Claim
claim_of row ingestion = record {
  job_id = row.job_id;
  session_id = row.session_id;
  job_attempt_count = row.attempt_count;
  session_attempt_token = ingestion.attempt_count;
  claimed_at = 0;
}

module _ (s : ValidSettings) (now : ℕ) (jitter : Number) (row : JobSession) (db db' : Store)
    (r : Option RecoveredLease) (st : Stands db.job_sessions row) where
  expire_lease-Round :
      (job : Job) (ingestion : Ingestion) (status : Status) (retry : Option ℕ)
      → db.ingestions row.session_id ≡ some ingestion
      → is_running ingestion.status ≡ true
      → recovered_outcome s now jitter row ≡ ok (status, retry)
      → expire_lease s now jitter job row ingestion db ≡ ok (r, db')
      → Round s now jitter row db db'
  unfolding expire_lease
  expire_lease-Round job ingestion status retry found live decided h = record {
    claim = claim_of row ingestion;
    status = status;
    retry = retry;
    wrote = record {
      before = ingestion;
      after = recovered_ingestion status retry ingestion;
      owned = record {
        row_found = st.found;
        row_running = ground (arith, st.live);
        row_attempt = refl;
        ingestion_found = found;
        ingestion_running = ground arith;
        ingestion_token = refl;
      };
      same_job = refl;
      same_session = refl;
      rows = ground arith;
      ingestions = ground arith;
      together = refl;
      token_kept = refl;
      attempts_kept = omega arith;
    };
    decided = decided;
  }

  recover_row-Round :
      recover_row s now jitter row.job_id row.session_id db ≡ ok (r, db')
      → (db' ≡ db) ⊎ Round s now jitter row db db'
  unfolding recover_row recover_job recover_ingestion expire_lease
  recover_row-Round h = elim (Option-cases (db.jobs row.job_id)) [
    | inl lost ↦ inl (ground (arith, st.found))
    | inr (job, has_job) ↦ elim (Option-cases (db.ingestions row.session_id)) [
      | inl lost ↦ inl (ground (arith, st.found))
      | inr (ingestion, found) ↦
          elim (Bool-cases (
            is_running job.status
            && is_archive ingestion.source
            && is_running ingestion.status
            && leb 1 row.attempt_count
            && is_expired s now ingestion.heartbeat_at)) [
              | inr kept ↦ inl (ground (arith, st.found))
              | inl expired ↦ elim (Outcome-cases (recovered_outcome s now jitter row)) [
                | inr bad ↦ absurd (ground (arith, st.found))
                | inl (o, decided) ↦ inr (
                    expire_lease-Round job ingestion o.0 o.1 found (ground arith) decided
                      (ground (arith, st.found)))
              ]
            ]
    ]
  ]

recovered_row-IsBudgeted :
    (s : ValidSettings) (now : ℕ) (jitter : Number) (row : JobSession) (status : Status)
    (retry : Option ℕ)
    → IsBudgeted s.max_attempts row
    → recovered_outcome s now jitter row ≡ ok (status, retry)
    → IsBudgeted s.max_attempts (recovered_row status retry row)
unfolding recovered_outcome
recovered_row-IsBudgeted s now jitter row status retry fits h = record {
  capped = fits.capped;
  claimable = ground (arith, fits.capped);
  attempted = ground (arith, fits.capped);
}

Inv-Round :
    (s : ValidSettings) (now : ℕ) (jitter : Number) (row : JobSession) (db db' : Store)
    → Inv s.max_attempts db
    → Round s now jitter row db db'
    → Inv s.max_attempts db'
Inv-Round s now jitter row db db' inv round =
    Inv-Written s.max_attempts round.claim db db' row (recovered_row round.status round.retry row)
      inv round.wrote
      (recovered_row-IsBudgeted s now jitter row round.status round.retry
        (find_row-All (IsBudgeted s.max_attempts) round.claim.job_id round.claim.session_id
          db.job_sessions row inv.budgeted round.wrote.owned.row_found)
        round.decided)

-- A row with another key stands in a table, if it is not found among the rest under that key.
Stands-others :
    (new row : JobSession) (table rows : List JobSession)
    → new.job_id ≡ row.job_id
    → new.session_id ≡ row.session_id
    → is_none (find_row row.job_id row.session_id rows) ≡ true
    → All (Stands table) rows
    → All (Stands (put_row new table)) rows
unfolding find_row
Stands-others new row table [] j n h a = tt
Stands-others new row table (x ∷ rows) j n h a = (
  Stands-put_row new x table ground arith a.0,
  Stands-others new row table rows j n ground arith a.1,
)

Inv-recover_rows :
    (s : ValidSettings) (env : Environment) (round : ℕ) (rows : List JobSession) (db db' : Store)
    (leases : List RecoveredLease)
    → UniqueRows rows
    → All (Stands db.job_sessions) rows
    → Inv s.max_attempts db
    → recover_rows s env round rows db ≡ ok (leases, db')
    → Inv s.max_attempts db'
unfolding recover_rows
Inv-recover_rows s env round [] db db' leases u a inv h =
    subst (Inv s.max_attempts) (ground arith) inv
Inv-recover_rows s env round (row ∷ rows) db db' leases u a inv h =
    elim (Outcome-cases
      (recover_row s (env.recovered_at round) (env.jitter round) row.job_id row.session_id db)) [
        | inr bad ↦ absurd (ground arith)
        | inl ((r, mid), first) ↦ elim (Outcome-cases (recover_rows s env (round + 1) rows mid)) [
          | inr bad ↦ absurd (ground arith)
          | inl ((more, last), rest) ↦
              let ends : last ≡ db' = ground arith in
              elim (recover_row-Round s (env.recovered_at round) (env.jitter round) row db mid r a.0
                first) [
                  | inl same ↦ subst (Inv s.max_attempts) ends (
                      Inv-recover_rows s env (round + 1) rows mid last more u.1
                        (subst (λ d. All (Stands d.job_sessions) rows) (sym same) a.1)
                        (subst (Inv s.max_attempts) (sym same) inv) rest)
                  | inr wrote ↦ subst (Inv s.max_attempts) ends (
                      Inv-recover_rows s env (round + 1) rows mid last more u.1
                        (subst (λ table. All (Stands table) rows) (sym wrote.wrote.rows)
                          (Stands-others (recovered_row wrote.status wrote.retry row) row
                            db.job_sessions rows refl refl u.0 a.1))
                        (Inv-Round s (env.recovered_at round) (env.jitter round) row db mid inv
                          wrote)
                        rest)
                ]
        ]
      ]

pub Inv-recover_stale :
    (s : ValidSettings) (env : Environment) (batch_size : ℕ) (db db' : Store)
    (leases : List RecoveredLease)
    → Inv s.max_attempts db
    → recover_stale s env batch_size db ≡ ok (leases, db')
    → Inv s.max_attempts db'
unfolding recover_stale
Inv-recover_stale s env batch_size db db' leases inv h =
    let (u, a) = stale_rows-Stands s env batch_size db inv.unique in
    Inv-recover_rows s env 0 (stale_rows s env batch_size db) db db' leases u a inv ground arith
