-- ===== src/Failures.antt =====
-- The exceptions of an archive attempt, `classify_retry` and `_sqlstate` of
-- backend/app/ingestion/runtime_policy.py, and `sanitize_archive_failure` of
-- backend/app/ingestion/archive_attempt.py. An exception class that is a subclass of another is a
-- constructor of its own, and each `isinstance` test lists the constructors that pass it.
use Prim.Native.Char.{code}
use mathlib.Core.List.{reverse}
use formula1_dashboard.Common.{
  ℕ, ◌-◌, String, Bool, false, Option, none, some, List, [], ◌∷◌, leb, ◌==◌, ◌&&◌, ◌||◌,
  if◌then◌else◌, take, any,
}
use formula1_dashboard.Policy.Settings.{same_list}
use formula1_dashboard.Store.{SanitizedFailure}

-- What `getattr(original, name, None)` may return: nothing, a text by its code points, or else.
pub data Attribute : Type 0 where
  absent : Attribute
  text : List ℕ → Attribute
  other_object : Attribute

pub record DatabaseError : Type 0 where
  pub connection_invalidated : Bool
  pub sqlstate : Attribute
  pub pgcode : Attribute

pub data ArchiveError : Type 0 where
  request_budget_exhausted : ℕ → ArchiveError
  rate_limit : ArchiveError
  session_load : ArchiveError
  loader_configuration : ArchiveError
  normalization : ArchiveError
  session_identity : ArchiveError
  target_changed : ArchiveError
  source_conflict : ArchiveError
  session_not_found : ArchiveError
  persistence_contract : ArchiveError
  persistence_transaction : ArchiveError
  persistence_ownership : ArchiveError
  claim_ownership : ArchiveError
  pool_timeout : ArchiveError
  dbapi : DatabaseError → ArchiveError
  other_sqlalchemy : ArchiveError
  other_exception : ArchiveError

pub data RetryDisposition : Type 0 where
  retryable terminal : RetryDisposition

abbrev pub codes : String → List ℕ
codes String.[] = []
codes (String.◌∷◌ c s) = code c ∷ codes s

-- `str.isspace` of one character.
unfoldable pub is_space : ℕ → Bool
is_space c =
    (leb 9 c && leb c 13)
    || (leb 28 c && leb c 32)
    || c == 133
    || c == 160
    || c == 5760
    || (leb 8192 c && leb c 8202)
    || c == 8232
    || c == 8233
    || c == 8239
    || c == 8287
    || c == 12288

unfoldable pub lstrip : List ℕ → List ℕ
unfolding is_space
lstrip [] = []
lstrip (c ∷ cs) = let rest = lstrip cs in if is_space c then rest else c ∷ cs

-- `str.strip()`.
unfoldable pub strip : List ℕ → List ℕ
unfolding lstrip
strip cs = reverse (lstrip (reverse (lstrip cs)))

-- `str.upper()`, of ASCII letters; the codes that are looked up are ASCII.
unfoldable pub upper : List ℕ → List ℕ
upper [] = []
upper (c ∷ cs) = (if leb b'a' c && leb c b'z' then c - 32 else c) ∷ upper cs

unfoldable pub nonempty : List ℕ → Option (List ℕ)
nonempty [] = none
nonempty (c ∷ cs) = some (c ∷ cs)

unfoldable pub normalized_state : Attribute → Option (List ℕ)
unfolding strip upper nonempty
normalized_state (text cs) = nonempty (upper (strip cs))
normalized_state _ = none

-- `_sqlstate`.
unfoldable pub sqlstate_of : DatabaseError → Option (List ℕ)
unfolding normalized_state
sqlstate_of e = normalized_state (elim e.sqlstate [ absent ↦ e.pgcode | other ↦ other ])

abbrev pub transient_prefixes : List (List ℕ)
transient_prefixes = codes "08" ∷ codes "40" ∷ codes "53" ∷ []

abbrev pub transient_states : List (List ℕ)
transient_states = codes "55P03" ∷ codes "57P01" ∷ codes "57P02" ∷ codes "57P03" ∷ []

unfoldable pub is_transient : Option (List ℕ) → Bool
unfolding any same_list
is_transient none = false
is_transient (some cs) =
    any (same_list (take 2 cs)) transient_prefixes || any (same_list cs) transient_states

unfoldable pub classify_retry : ArchiveError → RetryDisposition
unfolding sqlstate_of is_transient
classify_retry (request_budget_exhausted _) = retryable
classify_retry session_load = retryable
classify_retry rate_limit = retryable
classify_retry target_changed = retryable
classify_retry session_identity = terminal
classify_retry pool_timeout = retryable
classify_retry (dbapi e) =
    if e.connection_invalidated
    then retryable
    else if is_transient (sqlstate_of e)
    then retryable
    else terminal
classify_retry _ = terminal

abbrev failure : String → String → SanitizedFailure
failure code message = record { code = code; message = message }

-- The first matching row of the table of `sanitize_archive_failure`.
unfoldable pub sanitize : ArchiveError → SanitizedFailure
sanitize (request_budget_exhausted _) =
    failure "fastf1_request_budget_paused" "FastF1 requests are paused by the local safety budget."
sanitize rate_limit = failure "fastf1_rate_limited" "FastF1 archive request rate limit was reached."
sanitize loader_configuration =
    failure "fastf1_configuration_failed" "FastF1 loader configuration failed."
sanitize session_load = failure "fastf1_load_failed" "FastF1 session loading failed."
sanitize normalization =
    failure "fastf1_normalization_failed" "FastF1 session normalization failed."
sanitize session_identity =
    failure "archive_identity_mismatch"
      "Loaded archive identity did not match the database session."
sanitize target_changed =
    failure "archive_target_changed" "Archive target identity changed before persistence."
sanitize source_conflict =
    failure "archive_source_conflict" "Archive replacement conflicted with another data source."
sanitize session_not_found =
    failure "archive_target_missing" "The archive target session no longer exists."
sanitize persistence_contract =
    failure "archive_persistence_failed" "Archive snapshot persistence failed."
sanitize persistence_transaction =
    failure "archive_persistence_failed" "Archive snapshot persistence failed."
sanitize persistence_ownership =
    failure "archive_persistence_failed" "Archive snapshot persistence failed."
sanitize pool_timeout =
    failure "database_operation_failed" "A database operation failed during archive ingestion."
sanitize (dbapi _) =
    failure "database_operation_failed" "A database operation failed during archive ingestion."
sanitize other_sqlalchemy =
    failure "database_operation_failed" "A database operation failed during archive ingestion."
sanitize _ = failure "archive_ingestion_failed" "Archive session ingestion failed."
