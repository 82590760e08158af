-- ===== src/Worker/Ingest.antt =====
-- `ingest_fastf1_archive_session`, for a claim. The loader, the normalization of what it loads, and
-- Python's `str.casefold` are parameters.
use text.Mathlib.Text.{◌==◌ as str_eq}
use formula1_dashboard.Common.{
  ℕ, String, Bool, Option, none, some, Outcome, ok, err, ◌>>=◌, ◌>>◌, guard, or_raise,
  if◌then◌else◌, ◌++◌, List, [], ◌∷◌, leb, not, true, false, ◌==◌, ◌&&◌,
}
use formula1_dashboard.Failures.{
  ArchiveError, is_space, codes, strip, loader_configuration, session_identity, target_changed,
  source_conflict, session_not_found, persistence_contract, persistence_transaction,
  persistence_ownership, other_exception,
}
use formula1_dashboard.Policy.Settings.{same_list}
use formula1_dashboard.Store.{Store, SessionIdentity, StoreError}
use formula1_dashboard.Orchestration.Rows.{Claim}
use formula1_dashboard.Orchestration.Completion.{complete_claim}

-- `FastF1SessionRequest`.
pub record SessionRequest : Type 0 where
  pub season_year : ℕ
  pub round_number : ℕ
  pub session_identifier : String

-- `LoadedFastF1Session`, its frames of results and laps apart.
pub record LoadedSession (Frames : Type 0) : Type 0 where
  pub request : SessionRequest
  pub session_name : String
  pub frames : Frames

abbrev same_request : SessionRequest → SessionRequest → Bool
same_request a b =
    a.season_year == b.season_year
    && a.round_number == b.round_number
    && str_eq a.session_identifier b.session_identifier

-- The class of exception that `replace_archive_session` raises.
unfoldable pub persistence_error : StoreError → ArchiveError
persistence_error StoreError.transaction_open = persistence_transaction
persistence_error StoreError.session_not_found = session_not_found
persistence_error StoreError.source_conflict = source_conflict
persistence_error StoreError.claim_ownership = persistence_ownership
persistence_error StoreError.target_changed = target_changed
persistence_error StoreError.contract = persistence_contract
persistence_error _ = other_exception

-- What the code outside does for one ingestion: the loader's answer, the normalization of its frames,
-- and what the heartbeat monitor raises before the persistence, if anything.
pub record Source (Frames Snapshot : Type 0) : Type 0 where
  pub load : SessionRequest → Outcome ArchiveError (LoadedSession Frames)
  pub normalize : LoadedSession Frames → Outcome ArchiveError Snapshot
  pub casefold : List ℕ → List ℕ
  pub heartbeat_failure : Option ArchiveError

-- What the persistence reads besides the tables: the clock, and whether the session has rows of
-- another source.
pub record Persistence : Type 0 where
  pub persisted_at : ℕ
  pub foreign_rows : Bool

abbrev raise_if_failed : Option ArchiveError → Outcome ArchiveError (Unit {0})
raise_if_failed none = ok tt
raise_if_failed (some e) = err e

abbrev request_of : SessionIdentity → SessionRequest
request_of target = record {
  season_year = target.season_year;
  round_number = target.round_number;
  session_identifier = target.session_name;
}

abbrev starts_word : List ℕ → Bool
starts_word [] = false
starts_word (c ∷ cs) = not (is_space c)

-- A character in front of the first word.
abbrev attach : ℕ → List (List ℕ) → List (List ℕ)
attach c [] = (c ∷ []) ∷ []
attach c (word ∷ rest) = (c ∷ word) ∷ rest

-- `str.split()`.
unfoldable pub words : List ℕ → List (List ℕ)
unfolding is_space
words [] = []
words (c ∷ cs) =
    let rest = words cs in
    if is_space c then rest else if starts_word cs then attach c rest else (c ∷ []) ∷ rest

-- `" ".join`.
unfoldable pub join_words : List (List ℕ) → List ℕ
join_words [] = []
join_words (word ∷ []) = word
join_words (word ∷ next ∷ rest) = word ++ (b' ' ∷ join_words (next ∷ rest))

abbrev is_blank : List ℕ → Bool
is_blank [] = true
is_blank _ = false

-- `FastF1SessionRequest.__post_init__`.
unfoldable pub validate_request : SessionRequest → Outcome ArchiveError (Unit {0})
unfolding strip
validate_request request = do
  guard (leb 2018 request.season_year) loader_configuration
  guard (leb 1 request.round_number) loader_configuration
  guard (not (is_blank (strip (codes request.session_identifier)))) loader_configuration

module _ {Frames Snapshot : Type 0} (source : Source Frames Snapshot) where
  -- `_canonical_session_name`.
  unfoldable pub canonical_name : String → List ℕ
  unfolding words join_words
  canonical_name name = source.casefold (join_words (words (codes name)))

  -- `_validate_loaded_identity`.
  unfoldable pub validate_loaded_identity :
      SessionIdentity → LoadedSession Frames → Outcome ArchiveError (Unit {0})
  unfolding canonical_name same_list
  validate_loaded_identity target loaded = do
    guard (same_request loaded.request (request_of target)) session_identity
    guard (same_list (canonical_name loaded.session_name) (canonical_name target.session_name))
        session_identity

  -- The part before the persistence, on the tables that `_load_target` finds.
  unfoldable pub prepare : ℕ → Store → Outcome ArchiveError SessionIdentity
  unfolding validate_loaded_identity validate_request
  prepare session db = do
    target ← or_raise session_not_found (db.sessions session)
    validate_request (request_of target)
    loaded ← source.load (request_of target)
    validate_loaded_identity target loaded
    snapshot ← source.normalize loaded
    raise_if_failed source.heartbeat_failure
    ok target

-- The persistence, on the tables that it finds; the answer is the time of completion.
unfoldable pub persist :
    Persistence → Claim → SessionIdentity → Store → Outcome ArchiveError (ℕ × Store)
unfolding complete_claim persistence_error
persist p claim target db =
    elim (complete_claim p.persisted_at none none (some target) p.foreign_rows claim db) [
      | err e ↦ err (persistence_error e)
      | ok result ↦ ok result
    ]
