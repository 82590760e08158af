-- ===== src/Planning/Settling.antt =====
-- The sessions that a planning has dealt with.
use formula1_dashboard.Common.{
  ℕ, ◌≡◌, refl, sym, ap, subst, ◌∙◌, Bool, true, false, not, Option, none, some, List, [], ◌∷◌,
  ◌++◌, ok, arith, All, is_none, ◌==◌, ◌&&◌, any, Outcome-cases, inl, inr,
}
use formula1_dashboard.Policy.Settings.{ValidSettings}
use formula1_dashboard.Store.{Job, JobSession, Ingestion, find_row, has_key}
use formula1_dashboard.Planning.Catalogue.{RaceSession}
use formula1_dashboard.Planning.Eligibility.{
  Current, Eligible, is_ingesting, is_eligible, eligible_rows, keep_eligible,
}
use formula1_dashboard.Planning.Queue.{queued_session, is_queueable, newly_queued, add_sessions}

-- A session that needs no row of the job any more.
abbrev pub Settled : ℕ → List JobSession → Eligible → Type 0
Settled job existing row = is_queueable job existing row ≡ false

pub newly_queued-Settled :
    (job : ℕ) (existing : List JobSession) (rows : List Eligible)
    → All (Settled job existing) rows
    → newly_queued job existing rows ≡ []
unfolding newly_queued
newly_queued-Settled job existing [] a = refl
newly_queued-Settled job existing (row ∷ rows) a =
    ground (arith, newly_queued-Settled job existing rows)

find_row-append :
    (job session : ℕ) (new : JobSession) (rows : List JobSession)
    → is_none (find_row job session (rows ++ (new ∷ [])))
      ≡ (is_none (find_row job session rows) && not (has_key job session new))
unfolding find_row
find_row-append job session new [] = ground arith
find_row-append job session new (x ∷ rows) = ground (arith, find_row-append job session new rows)

module _ (t job : ℕ) where
  -- After the rows are added, a session has one if it had one before or is among those added.
  add_sessions-found :
      (ns : List ℕ) (rows rows' : List JobSession) (n : ℕ)
      → add_sessions t job ns rows ≡ ok rows'
      → is_none (find_row job n rows')
        ≡ (is_none (find_row job n rows) && not (any (λ k. k == n) ns))
  unfolding add_sessions any
  add_sessions-found [] rows rows' n h = ground arith
  add_sessions-found (m ∷ ns) rows rows' n h = ground (
    arith,
    find_row-append job n (queued_session t job m) rows,
    add_sessions-found ns (rows ++ (queued_session t job m ∷ [])) rows' n,
  )

-- Every session that the loop looks at is settled by the rows that it queues.
Settled-by :
    (job : ℕ) (existing after : List JobSession) (ids : List ℕ) (rows : List Eligible)
    → ((n : ℕ)
        → is_none (find_row job n after)
          ≡ (is_none (find_row job n existing) && not (any (λ k. k == n) ids)))
    → ((n : ℕ)
        → any (λ k. k == n) (newly_queued job existing rows) ≡ true
        → any (λ k. k == n) ids ≡ true)
    → All (Settled job after) rows
unfolding newly_queued any
Settled-by job existing after ids [] f g = tt
Settled-by job existing after ids (row ∷ rows) f g = (
  ground (arith, f row.race_session.id, g row.race_session.id),
  Settled-by job existing after ids rows f (λ n h. g n (ground arith)),
)

pub add_sessions-Settled :
    (t job : ℕ) (existing after : List JobSession) (rows : List Eligible)
    → add_sessions t job (newly_queued job existing rows) existing ≡ ok after
    → All (Settled job after) rows
add_sessions-Settled t job existing after rows h =
    let ids = newly_queued job existing rows in
    Settled-by job existing after ids rows (λ n. add_sessions-found t job ids existing after n h)
      (λ n e. e)

is_eligible-active :
    (s : ValidSettings) (now : ℕ) (active : Job) (x : RaceSession) (i : Option Ingestion)
    → is_eligible s now none x i ≡ ok false
    → is_eligible s now (some active) x i ≡ ok true
    → is_ingesting i ≡ true
unfolding is_eligible
is_eligible-active s now active x i h h' = ground arith

All-keep_eligible :
    (job : ℕ) (after : List JobSession) (b b' : Bool) (x : RaceSession) (i : Option Ingestion)
    (rest rest' : List Eligible)
    → (b ≡ false → b' ≡ true → is_ingesting i ≡ true)
    → (All (Settled job after) rest → All (Settled job after) rest')
    → All (Settled job after) (keep_eligible b x i rest)
    → All (Settled job after) (keep_eligible b' x i rest')
All-keep_eligible job after true true x i rest rest' f g a = (a.0, g a.1)
All-keep_eligible job after true false x i rest rest' f g a = g a.1
All-keep_eligible job after false true x i rest rest' f g a =
    let e = f refl refl in (ground arith, g a)
All-keep_eligible job after false false x i rest rest' f g a = g a

-- A session that is eligible only because the job is active now is being ingested.
pub eligible_rows-Settled :
    (s : ValidSettings) (now job : ℕ) (after : List JobSession) (active : Job)
    (ingestions : ℕ → Option Ingestion) (cs : List Current) (rows rows' : List Eligible)
    → eligible_rows s now none ingestions cs ≡ ok rows
    → eligible_rows s now (some active) ingestions cs ≡ ok rows'
    → All (Settled job after) rows
    → All (Settled job after) rows'
unfolding eligible_rows
eligible_rows-Settled s now job after active ingestions [] rows rows' h h' a =
    let e : rows ≡ rows' = ground arith in subst (All (Settled job after)) e a
eligible_rows-Settled s now job after active ingestions (c ∷ cs) rows rows' h h' a =
    let x = c.race_session in
    let i = ingestions c.race_session.id in
    elim (Outcome-cases (is_eligible s now none x i)) [
      | inr bad ↦ absurd (ground arith)
      | inl (b, e) ↦ elim (Outcome-cases (eligible_rows s now none ingestions cs)) [
        | inr bad ↦ absurd (ground arith)
        | inl (rest, r) ↦ elim (Outcome-cases (is_eligible s now (some active) x i)) [
          | inr bad ↦ absurd (ground arith)
          | inl (b', e') ↦ elim (Outcome-cases (eligible_rows s now (some active) ingestions cs)) [
            | inr bad ↦ absurd (ground arith)
            | inl (rest', r') ↦
                let here : keep_eligible b x i rest ≡ rows = ground arith in
                let there : keep_eligible b' x i rest' ≡ rows' = ground arith in
                subst (All (Settled job after)) there (
                  All-keep_eligible job after b b' x i rest rest'
                    (λ p q. is_eligible-active s now active x i (e ∙ ap ok p) (e' ∙ ap ok q))
                    (eligible_rows-Settled s now job after active ingestions cs rest rest' r r')
                    (subst (All (Settled job after)) (sym here) a))
          ]
        ]
      ]
    ]
