-- ===== src/Live/Retention.antt =====
-- backend/app/live/retention.py. A directory is the list of its entries, whose names are numbers in the
-- order of their paths; an instant and a duration are numbers of microseconds.
pub mod Swept
use formula1_dashboard.Common.{
  ℕ, ◌+◌, Bool, true, false, not, Option, none, some, List, [], ◌∷◌, Outcome, ok, err, ◌>>=◌, ◌>>◌,
  guard, ltb, leb, ◌==◌, if◌then◌else◌, select,
}
use formula1_dashboard.Policy.Retry.{DateTime}

-- An entry of a directory: whether it is a file with the suffix of the logs, its time of modification,
-- none where `stat` fails, and whether `unlink` succeeds.
pub record File : Type 0 where
  pub name : ℕ
  pub is_log : Bool
  pub modified_at : Option ℕ
  pub removable : Bool

-- The errors of `sweep_expired_logs`.
pub data SweepError : Type 0 where
  timezone_missing not_positive : SweepError

-- `SweepResult`.
pub record SweepResult : Type 0 where
  pub deleted : List ℕ
  pub retained : List ℕ
  pub failed : List ℕ

unfoldable pub insert_file : File → List File → List File
insert_file f [] = f ∷ []
insert_file f (x ∷ xs) =
    let rest = insert_file f xs in if ltb f.name x.name then f ∷ x ∷ xs else x ∷ rest

unfoldable pub sort_files : List File → List File
unfolding insert_file
sort_files [] = []
sort_files (x ∷ xs) = insert_file x (sort_files xs)

-- `_session_logs`.
unfoldable pub session_logs : List File → List File
unfolding sort_files select
session_logs files = sort_files (select (λ f. f.is_log) files)

-- `path.unlink()`.
unfoldable pub unlink : ℕ → List File → List File
unlink name [] = []
unlink name (x ∷ xs) = let rest = unlink name xs in if x.name == name then rest else x ∷ rest

-- Whether a log was last modified before `now - retention`; none where `stat` fails.
unfoldable pub is_expired_log : ℕ → ℕ → File → Option Bool
is_expired_log now retention f = elim f.modified_at [
  | none ↦ none
  | some at ↦ some (not (leb now (at + retention)))
]

-- The result of a round put before that of the later ones.
abbrev add_retained : File → SweepResult → SweepResult
add_retained f r = record r { retained = f.name ∷ r.retained }

abbrev add_failed : File → SweepResult → SweepResult
add_failed f r = record r { failed = f.name ∷ r.failed }

abbrev add_deleted : File → SweepResult → SweepResult
add_deleted f r = record r { deleted = f.name ∷ r.deleted }

-- The loop over the logs, on the directory.
unfoldable pub sweep_logs : ℕ → ℕ → List File → List File → SweepResult × List File
unfolding is_expired_log unlink
sweep_logs now retention [] files = (record { deleted = []; retained = []; failed = [] }, files)
sweep_logs now retention (f ∷ logs) files =
    let kept = sweep_logs now retention logs files in
    let gone = sweep_logs now retention logs (unlink f.name files) in
    elim (is_expired_log now retention f) [
      | none ↦ (add_failed f kept.0, kept.1)
      | some expired ↦
          if expired
          then if f.removable then (add_deleted f gone.0, gone.1) else (add_failed f kept.0, kept.1)
          else (add_retained f kept.0, kept.1)
    ]

-- `sweep_expired_logs`; none for what is no directory.
unfoldable pub sweep_expired_logs :
    DateTime → ℕ → Option (List File) → Outcome SweepError (SweepResult × Option (List File))
unfolding session_logs sweep_logs
sweep_expired_logs now retention directory = do
  guard now.has_timezone timezone_missing
  guard (ltb 0 retention) not_positive
  elim directory [
    | none ↦ ok (record { deleted = []; retained = []; failed = [] }, none)
    | some files ↦
        let (result, left) = sweep_logs now.instant retention (session_logs files) files in
        ok (result, some left)
  ]
