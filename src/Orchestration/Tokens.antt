-- ===== src/Orchestration/Tokens.antt =====
-- How each operation moves the token of an ingestion.
use formula1_dashboard.Common.{
  ℕ, ◌+◌, ◌≤◌, ◌≡◌, Bool, Option, none, some, List, [], ◌∷◌, ok, arith, Outcome-cases, Option-cases,
  inl, inr,
}
use formula1_dashboard.Policy.Number.{Number}
use formula1_dashboard.Policy.Settings.{ValidSettings}
use formula1_dashboard.Store.{Store, Job, JobSession, Ingestion, find_row}
use formula1_dashboard.Orchestration.Rows.{Claim}
use formula1_dashboard.Orchestration.Claim.{
  Readings, claim_next, claim_row, claimed_ingestion, first_row, is_claimable,
}
use formula1_dashboard.Orchestration.Recovery.{
  RecoveredLease, Environment, recover_stale, recover_rows, recover_row, recover_job,
  recover_ingestion, expire_lease, recovered_outcome, stale_rows,
}
use formula1_dashboard.Orchestration.Aggregation.{Aggregation, aggregate}
use formula1_dashboard.Orchestration.Owned.{Written}

-- The token that the ingestion of a session stands at; 0 before the first.
abbrev pub token_of : Option Ingestion → ℕ
token_of none = 0
token_of (some i) = i.attempt_count

abbrev pub token : Store → ℕ → ℕ
token db n = token_of (db.ingestions n)

pub Written-token :
    (claim : Claim) (db db' : Store) (old new : JobSession) (n : ℕ)
    → Written claim db db' old new
    → token db' n ≡ token db n
Written-token claim db db' old new n w =
    rw w.ingestions ground (arith, w.owned.ingestion_found, w.token_kept)

module _ (s : ValidSettings) (clock : Readings) (db db' : Store) where
  claim_row-token :
      (row : JobSession) (c : Option Claim) (n : ℕ)
      → claim_row s clock db row ≡ ok (c, db')
      → token db n ≤ token db' n
  unfolding claim_row claimed_ingestion
  claim_row-token row c n h = elim (Option-cases (db.ingestions row.session_id)) [
    | inl e ↦ ground arith
    | inr (i, e) ↦ ground arith
  ]

  claim_row-issued :
      (row : JobSession) (c : Claim)
      → claim_row s clock db row ≡ ok (some c, db')
      → (c.session_attempt_token ≡ token db c.session_id + 1)
        × (token db' c.session_id ≡ c.session_attempt_token)
  unfolding claim_row claimed_ingestion
  claim_row-issued row c h = elim (Option-cases (db.ingestions row.session_id)) [
    | inl e ↦ ground arith
    | inr (i, e) ↦ ground arith
  ]

  pub claim_next-token :
      (locked : JobSession → Bool) (c : Option Claim) (n : ℕ)
      → claim_next s clock locked db ≡ ok (c, db')
      → token db n ≤ token db' n
  unfolding claim_next
  claim_next-token locked c n h =
      elim (Option-cases
        (first_row (is_claimable s clock.transaction_at locked db) db.job_sessions)) [
          | inl e ↦ ground arith
          | inr (row, e) ↦ ground (arith, claim_row-token row c n)
        ]

  pub claim_next-issued :
      (locked : JobSession → Bool) (c : Claim)
      → claim_next s clock locked db ≡ ok (some c, db')
      → (c.session_attempt_token ≡ token db c.session_id + 1)
        × (token db' c.session_id ≡ c.session_attempt_token)
  unfolding claim_next
  claim_next-issued locked c h =
      elim (Option-cases
        (first_row (is_claimable s clock.transaction_at locked db) db.job_sessions)) [
          | inl e ↦ absurd (ground arith)
          | inr (row, e) ↦ ground (arith, claim_row-issued row c)
        ]

module _ (s : ValidSettings) where
  expire_lease-token :
      (now : ℕ) (jitter : Number) (job : Job) (row : JobSession) (i : Ingestion) (db db' : Store)
      (r : Option RecoveredLease) (n : ℕ)
      → db.ingestions row.session_id ≡ some i
      → expire_lease s now jitter job row i db ≡ ok (r, db')
      → token db' n ≡ token db n
  unfolding expire_lease
  expire_lease-token now jitter job row i db db' r n e h =
      elim (Outcome-cases (recovered_outcome s now jitter row)) [
        | inr bad ↦ absurd (ground arith)
        | inl (o, e') ↦ ground arith
      ]

  recover_row-token :
      (now : ℕ) (jitter : Number) (j k : ℕ) (db db' : Store) (r : Option RecoveredLease) (n : ℕ)
      → recover_row s now jitter j k db ≡ ok (r, db')
      → token db' n ≡ token db n
  unfolding recover_row recover_job recover_ingestion
  recover_row-token now jitter j k db db' r n h =
      elim (Option-cases (find_row j k db.job_sessions)) [
        | inl e ↦ ground arith
        | inr (row, e) ↦ elim (Option-cases (db.jobs row.job_id)) [
          | inl e' ↦ ground arith
          | inr (job, e') ↦ elim (Option-cases (db.ingestions row.session_id)) [
            | inl e'' ↦ ground arith
            | inr (i, e'') ↦ ground (arith, expire_lease-token now jitter job row i db db' r n)
          ]
        ]
      ]

  recover_rows-token :
      (env : Environment) (round : ℕ) (rows : List JobSession) (db db' : Store)
      (leases : List RecoveredLease) (n : ℕ)
      → recover_rows s env round rows db ≡ ok (leases, db')
      → token db' n ≡ token db n
  unfolding recover_rows
  recover_rows-token env round [] db db' leases n h = ground arith
  recover_rows-token env round (row ∷ rows) db db' leases n h =
      elim (Outcome-cases
        (recover_row s (env.recovered_at round) (env.jitter round) row.job_id row.session_id db)) [
          | inr bad ↦ absurd (ground arith)
          | inl ((r, mid), first) ↦ elim (Outcome-cases (recover_rows s env (round + 1) rows mid)) [
            | inr bad ↦ absurd (ground arith)
            | inl ((more, last), rest) ↦ ground (
              arith,
              recover_row-token (env.recovered_at round) (env.jitter round) row.job_id
                  row.session_id db mid r n first,
              recover_rows-token env (round + 1) rows mid last more n rest,
            )
          ]
        ]

pub recover_stale-token :
    (s : ValidSettings) (env : Environment) (batch_size : ℕ) (db db' : Store)
    (leases : List RecoveredLease) (n : ℕ)
    → recover_stale s env batch_size db ≡ ok (leases, db')
    → token db' n ≡ token db n
unfolding recover_stale
recover_stale-token s env batch_size db db' leases n h =
    recover_rows-token s env 0 (stale_rows s env batch_size db) db db' leases n ground arith

pub aggregate-token :
    (now id : ℕ) (a : Aggregation) (db db' : Store) (n : ℕ)
    → aggregate now id db ≡ ok (a, db')
    → token db' n ≡ token db n
unfolding aggregate
aggregate-token now id a db db' n h = ground arith
