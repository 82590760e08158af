-- ===== src/Orchestration/Replacement.antt =====
-- `replace_archive_session` for a claim, with the validation of its arguments. Texts that are only
-- compared are numbers; of a snapshot there is what `_validate_snapshot` reads.
use formula1_dashboard.Common.{
  ℕ, ◌≤◌, ◌≡◌, Bool, true, false, not, Option, none, some, List, [], ◌∷◌, Outcome, ok, ◌>>◌, guard,
  ◌==◌, ◌&&◌, if◌then◌else◌, any, count, map, arith, is_ok,
}
use formula1_dashboard.Policy.Retry.{DateTime}
use formula1_dashboard.Store.{
  Store, SessionIdentity, Source, RecordState, provisional, finalized, StoreError, transaction_open,
  contract, is_archive,
}
use formula1_dashboard.Orchestration.Rows.{Claim}
use formula1_dashboard.Orchestration.Completion.{complete_claim}

-- The columns of origin that entries, results and laps share.
pub record Origin : Type 0 where
  pub source : Source
  pub record_state : RecordState

pub record SnapshotEntry : Type 0 where
  pub entry_key : ℕ
  pub jolpica_driver_id : Option ℕ
  pub origin : Origin

pub record SnapshotResult : Type 0 where
  pub entry_key : ℕ
  pub origin : Origin

pub record SnapshotLap : Type 0 where
  pub entry_key : ℕ
  pub lap_number : ℕ
  pub origin : Origin

pub record Snapshot : Type 0 where
  pub driver_ids : List ℕ
  pub entries : List SnapshotEntry
  pub results : List SnapshotResult
  pub laps : List SnapshotLap

abbrev is_member : ℕ → List ℕ → Bool
is_member key keys = any (λ x. x == key) keys

-- `len(keys) == len(set(keys))`.
unfoldable pub is_distinct : List ℕ → Bool
unfolding any
is_distinct [] = true
is_distinct (x ∷ xs) = not (is_member x xs) && is_distinct xs

unfoldable pub is_subset : List ℕ → List ℕ → Bool
unfolding any
is_subset [] ys = true
is_subset (x ∷ xs) ys = is_member x ys && is_subset xs ys

-- `set(xs) == set(ys)`.
abbrev is_same_set : List ℕ → List ℕ → Bool
is_same_set xs ys = is_subset xs ys && is_subset ys xs

-- The keys of the laps, `(entry_key, lap_number)`, are distinct.
unfoldable pub has_distinct_laps : List SnapshotLap → Bool
unfolding any
has_distinct_laps [] = true
has_distinct_laps (x ∷ xs) =
    not (any (λ lap. lap.entry_key == x.entry_key && lap.lap_number == x.lap_number) xs)
    && has_distinct_laps xs

-- The drivers of the entries that name one.
unfoldable pub entry_driver_ids : List SnapshotEntry → List ℕ
entry_driver_ids [] = []
entry_driver_ids (e ∷ es) =
    let rest = entry_driver_ids es in elim e.jolpica_driver_id [ none ↦ rest | some id ↦ id ∷ rest ]

abbrev pub entry_keys : Snapshot → List ℕ
entry_keys snapshot = map (λ e. e.entry_key) snapshot.entries

abbrev pub result_keys : Snapshot → List ℕ
result_keys snapshot = map (λ r. r.entry_key) snapshot.results

abbrev is_finalized : RecordState → Bool
is_finalized provisional = false
is_finalized finalized = true

-- Whether some record of the snapshot fails a test on its origin.
unfoldable pub any_origin : (Origin → Bool) → Snapshot → Bool
unfolding any
any_origin test snapshot =
    if any (λ e. test e.origin) snapshot.entries
    then true
    else if any (λ r. test r.origin) snapshot.results
    then true
    else any (λ lap. test lap.origin) snapshot.laps

abbrev is_nonempty : List SnapshotEntry → Bool
is_nonempty [] = false
is_nonempty (e ∷ es) = true

-- `_validate_snapshot`.
unfoldable pub validate_snapshot : Snapshot → Outcome StoreError (Unit {0})
unfolding is_distinct is_subset entry_driver_ids has_distinct_laps any_origin any
validate_snapshot snapshot = do
  guard (is_nonempty snapshot.entries) contract
  guard (is_distinct snapshot.driver_ids) contract
  guard (is_distinct (entry_keys snapshot)) contract
  guard (is_same_set (entry_driver_ids snapshot.entries) snapshot.driver_ids) contract
  guard
      (is_distinct (result_keys snapshot)
        && is_same_set (result_keys snapshot) (entry_keys snapshot))
      contract
  guard (has_distinct_laps snapshot.laps) contract
  guard (is_subset (map (λ lap. lap.entry_key) snapshot.laps) (entry_keys snapshot)) contract
  guard (not (any_origin (λ o. not (is_archive o.source)) snapshot)) contract
  guard (not (any_origin (λ o. not (is_finalized o.record_state)) snapshot)) contract

-- `_validate_timestamp`.
unfoldable pub validate_timestamp : Option DateTime → Outcome StoreError (Unit {0})
validate_timestamp none = ok tt
validate_timestamp (some d) = guard d.has_timezone contract

abbrev instant_of : Option DateTime → Option ℕ
instant_of none = none
instant_of (some d) = some d.instant

unfoldable pub replace_archive_session :
    ℕ
    → Snapshot
    → Option DateTime
    → Option DateTime
    → Option SessionIdentity
    → Bool
    → Claim
    → Store
    → Outcome StoreError (ℕ × Store)
unfolding validate_snapshot validate_timestamp complete_claim
replace_archive_session now snapshot completed_at source_updated expected foreign_rows claim db = do
  guard (not db.in_transaction) transaction_open
  validate_snapshot snapshot
  validate_timestamp completed_at
  validate_timestamp source_updated
  complete_claim now (instant_of completed_at) (instant_of source_updated) expected foreign_rows
      claim db

-- A key stands once in distinct keys, where it stands.
count-is_distinct :
    (key : ℕ) (keys : List ℕ)
    → is_distinct keys ≡ true
    → count (λ x. x == key) keys ≡ (if is_member key keys then 1 else 0)
unfolding is_distinct any count
count-is_distinct key [] h = ground arith
count-is_distinct key (x ∷ keys) h = ground (arith, count-is_distinct key keys)

is_member-is_subset :
    (key : ℕ) (xs ys : List ℕ)
    → is_subset xs ys ≡ true
    → is_member key xs ≡ true
    → is_member key ys ≡ true
unfolding is_subset any
is_member-is_subset key [] ys h m = absurd (cc)
is_member-is_subset key (x ∷ xs) ys h m = ground (arith, is_member-is_subset key xs ys)

-- What a snapshot that is accepted is like.
pub record IsConsistent (snapshot : Snapshot) : Type 0 where
  pub one_result :
      (key : ℕ)
      → count (λ x. x == key) (result_keys snapshot) ≡ count (λ x. x == key) (entry_keys snapshot)
  pub one_entry : (key : ℕ) → count (λ x. x == key) (entry_keys snapshot) ≤ 1
  pub named_drivers :
      (id : ℕ) → is_member id (entry_driver_ids snapshot.entries) ≡ is_member id snapshot.driver_ids
  pub lap_entries :
      (key : ℕ)
      → is_member key (map (λ lap. lap.entry_key) snapshot.laps) ≡ true
      → is_member key (entry_keys snapshot) ≡ true

is_member-is_same_set :
    (key : ℕ) (xs ys : List ℕ) → is_same_set xs ys ≡ true → is_member key xs ≡ is_member key ys
is_member-is_same_set key xs ys h =
    ground (arith, is_member-is_subset key xs ys, is_member-is_subset key ys xs)

validate_snapshot-IsConsistent :
    (snapshot : Snapshot) → is_ok (validate_snapshot snapshot) ≡ true → IsConsistent snapshot
unfolding validate_snapshot
validate_snapshot-IsConsistent snapshot h =
    let entries : is_distinct (entry_keys snapshot) ≡ true = ground arith in
    let results : is_distinct (result_keys snapshot) ≡ true = ground arith in
    let same : is_same_set (result_keys snapshot) (entry_keys snapshot) ≡ true = ground arith in
    let drivers : is_same_set (entry_driver_ids snapshot.entries) snapshot.driver_ids ≡ true =
      ground arith in
    let laps : is_subset (map (λ lap. lap.entry_key) snapshot.laps) (entry_keys snapshot) ≡ true =
      ground arith in
    record {
      one_result = λ key. ground (
        arith,
        count-is_distinct key (entry_keys snapshot) entries,
        count-is_distinct key (result_keys snapshot) results,
        is_member-is_same_set key (result_keys snapshot) (entry_keys snapshot) same,
      );
      one_entry = λ key. ground (arith, count-is_distinct key (entry_keys snapshot) entries);
      named_drivers = λ id.
          is_member-is_same_set id (entry_driver_ids snapshot.entries) snapshot.driver_ids drivers;
      lap_entries = λ key.
          is_member-is_subset key (map (λ lap. lap.entry_key) snapshot.laps) (entry_keys snapshot)
            laps;
    }

-- A replacement that succeeds is the completion of its claim, with a consistent snapshot: entries have
-- keys of their own, each entry has exactly one result and no result lacks its entry, the drivers are
-- those that the entries name, and every lap is one of an entry.
pub replace_archive_session-IsConsistent :
    (now t : ℕ) (snapshot : Snapshot) (completed_at source_updated : Option DateTime)
    (expected : Option SessionIdentity) (foreign_rows : Bool) (claim : Claim) (db db' : Store)
    → replace_archive_session now snapshot completed_at source_updated expected foreign_rows claim
        db
      ≡ ok (t, db')
    → (complete_claim now
          (instant_of completed_at)
          (instant_of source_updated)
          expected
          foreign_rows
          claim
          db
        ≡ ok (t, db'))
      × IsConsistent snapshot
unfolding replace_archive_session
replace_archive_session-IsConsistent now t snapshot completed_at source_updated expected
      foreign_rows claim db db' h =
    (ground arith, validate_snapshot-IsConsistent snapshot ground arith)
