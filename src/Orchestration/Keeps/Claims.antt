-- ===== src/Orchestration/Keeps/Claims.antt =====
-- A claim keeps the invariant.
use formula1_dashboard.Common.{
  ℕ, ◌≡◌, refl, Bool, true, Option, none, some, List, [], ◌∷◌, ok, arith, Option-cases, inl, inr,
  subst,
}
use formula1_dashboard.Policy.Settings.{ValidSettings}
use formula1_dashboard.Store.{Store, JobSession, Ingestion, find_row, put_row, UniqueRows, update}
use formula1_dashboard.Orchestration.Rows.{Claim}
use formula1_dashboard.Orchestration.Claim.{
  Readings, first_row, is_claimable, claimed_row, claimed_ingestion, claim_row, claim_next,
}
use formula1_dashboard.Orchestration.Invariant.{IsBudgeted, Inv, Inv-write, running_ingestion}

first_row-found :
    (test : JobSession → Bool) (rows : List JobSession) (row : JobSession)
    → UniqueRows rows
    → first_row test rows ≡ some row
    → (find_row row.job_id row.session_id rows ≡ some row) × (test row ≡ true)
unfolding first_row find_row
first_row-found test [] row u h = absurd (cc)
first_row-found test (x ∷ rows) row u h = ground (arith, first_row-found test rows row u.1)

module _ (s : ValidSettings) (clock : Readings) (db db' : Store) (row : JobSession)
    (r : Option Claim) where
  claim_row_writes :
      claim_row s clock db row ≡ ok (r, db')
      → (db'.job_sessions ≡ put_row (claimed_row clock.claimed_at row) db.job_sessions)
        × (db'.ingestions
            ≡ update db.ingestions row.session_id (
                some (
                  claimed_ingestion row.session_id clock.claimed_at
                    (db.ingestions row.session_id))))
        × (running_ingestion (db.ingestions row.session_id) ≡ 0)
  unfolding claim_row
  claim_row_writes h = ground arith

claimed_row-IsBudgeted :
    (s : ValidSettings) (now at : ℕ) (locked : JobSession → Bool) (db : Store) (row : JobSession)
    → is_claimable s now locked db row ≡ true
    → IsBudgeted s.max_attempts (claimed_row at row)
unfolding is_claimable
claimed_row-IsBudgeted s now at locked db row h = record {
  capped = ground arith;
  claimable = λ e. absurd (cc);
  attempted = λ _. omega arith;
}

claimed_ingestion-running :
    (n at : ℕ) (i : Option Ingestion) → running_ingestion (some (claimed_ingestion n at i)) ≡ 1
unfolding claimed_ingestion
claimed_ingestion-running n at none = refl
claimed_ingestion-running n at (some i) = refl

Inv-claim_row :
    (s : ValidSettings) (clock : Readings) (locked : JobSession → Bool) (db db' : Store)
    (row : JobSession) (r : Option Claim)
    → Inv s.max_attempts db
    → first_row (is_claimable s clock.transaction_at locked db) db.job_sessions ≡ some row
    → claim_row s clock db row ≡ ok (r, db')
    → Inv s.max_attempts db'
Inv-claim_row s clock locked db db' row r inv found h =
    let (at_key, fits) =
      first_row-found (is_claimable s clock.transaction_at locked db) db.job_sessions row inv.unique
        found in
    let (rows, ingestions, idle) = claim_row_writes s clock db db' row r h in
    Inv-write s.max_attempts db db' row (claimed_row clock.claimed_at row)
      (claimed_ingestion row.session_id clock.claimed_at (db.ingestions row.session_id)) inv at_key
      (claimed_row-IsBudgeted s clock.transaction_at clock.claimed_at locked db row fits) rows
      ingestions omega
      (
        arith,
        idle,
        claimed_ingestion-running row.session_id clock.claimed_at (db.ingestions row.session_id),
      )

pub Inv-claim_next :
    (s : ValidSettings) (clock : Readings) (locked : JobSession → Bool) (db db' : Store)
    (r : Option Claim)
    → Inv s.max_attempts db
    → claim_next s clock locked db ≡ ok (r, db')
    → Inv s.max_attempts db'
unfolding claim_next
Inv-claim_next s clock locked db db' r inv h =
    elim (Option-cases
      (first_row (is_claimable s clock.transaction_at locked db) db.job_sessions)) [
        | inl none_due ↦ subst (Inv s.max_attempts) (ground arith) inv
        | inr (row, found) ↦ grind (arith, Inv-claim_row s clock locked db db' row r)
      ]
