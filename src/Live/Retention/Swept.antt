-- ===== src/Live/Retention/Swept.antt =====
-- What a sweep leaves in the directory.
use formula1_dashboard.Common.{
  ℕ, ◌+◌, ◌≡◌, ◌∙◌, refl, Bool, true, false, Option, none, some, List, [], ◌∷◌, ok, arith, ltb,
  ◌==◌, ◌&&◌, ◌||◌, if◌then◌else◌, select, any, Bool-cases, inl, inr, subst, ==_iff,
}
use formula1_dashboard.Policy.Retry.{DateTime}
use formula1_dashboard.Live.Retention.{
  File, SweepResult, insert_file, sort_files, session_logs, unlink, is_expired_log, sweep_logs,
  sweep_expired_logs,
}

-- The file of a name.
unfoldable pub find_file : ℕ → List File → Option File
find_file name [] = none
find_file name (x ∷ xs) = let rest = find_file name xs in if x.name == name then some x else rest

-- No two entries of a directory share a name.
abbrev pub UniqueNames : List File → Type 0
UniqueNames [] = Unit
UniqueNames (x ∷ xs) = (find_file x.name xs ≡ none) × UniqueNames xs

-- Whether a file is known to be modified before the cutoff, and removable.
unfoldable pub is_stale : ℕ → ℕ → File → Bool
is_stale now retention f = elim f.modified_at [
  | none ↦ false
  | some at ↦ f.removable && ltb (at + retention) now
]

-- The file that a sweep leaves.
abbrev pub spared : ℕ → ℕ → Option File → Option File
spared now retention none = none
spared now retention (some f) = if f.is_log && is_stale now retention f then none else some f

abbrev goes : ℕ → ℕ → ℕ → File → Bool
goes now retention name f = f.name == name && is_stale now retention f

find_file-unlink :
    (name gone : ℕ) (files : List File)
    → find_file name (unlink gone files) ≡ (if gone == name then none else find_file name files)
unfolding find_file unlink
find_file-unlink name gone [] = ground arith
find_file-unlink name gone (x ∷ files) = ground (arith, find_file-unlink name gone files)

any-insert_file :
    (test : File → Bool) (f : File) (files : List File)
    → any test (insert_file f files) ≡ (test f || any test files)
unfolding any insert_file
any-insert_file test f [] = ground arith
any-insert_file test f (x ∷ files) = ground (arith, any-insert_file test f files)

any-sort_files :
    (test : File → Bool) (files : List File) → any test (sort_files files) ≡ any test files
unfolding any sort_files
any-sort_files test [] = refl
any-sort_files test (x ∷ files) =
    ground (arith, any-insert_file test x (sort_files files), any-sort_files test files)

any-select {ℓ} :
    {A : Type ℓ} (keep test : A → Bool) (xs : List A)
    → any test (select keep xs) ≡ any (λ x. keep x && test x) xs
unfolding any select
any-select keep test [] = refl
any-select keep test (x ∷ xs) = ground (arith, any-select keep test xs)

module _ (now retention name : ℕ) where
  any-logs :
      (files : List File)
      → any (goes now retention name) (session_logs files)
        ≡ any (λ f. f.is_log && goes now retention name f) files
  unfolding session_logs
  any-logs files =
      any-sort_files (goes now retention name) (select (λ f. f.is_log) files)
      ∙ any-select (λ f. f.is_log) (goes now retention name) files

  find_file-sweep_logs :
      (logs files : List File)
      → find_file name (sweep_logs now retention logs files).1
        ≡ (if any (goes now retention name) logs then none else find_file name files)
  unfolding sweep_logs any is_expired_log is_stale
  find_file-sweep_logs [] files = refl
  find_file-sweep_logs (f ∷ logs) files = ground (
    arith,
    find_file-sweep_logs logs files,
    find_file-sweep_logs logs (unlink f.name files),
    find_file-unlink name f.name files,
  )

  any-absent :
      (files : List File)
      → (find_file name files ≡ none)
      → any (λ f. f.is_log && goes now retention name f) files ≡ false
  unfolding any find_file
  any-absent [] absent = refl
  any-absent (x ∷ files) absent = ground (arith, any-absent files)

  any-UniqueNames :
      (files : List File)
      → UniqueNames files
      → (if any (λ f. f.is_log && goes now retention name f) files
          then none
          else find_file name files)
        ≡ spared now retention (find_file name files)
  unfolding any find_file
  any-UniqueNames [] unique = refl
  any-UniqueNames (x ∷ files) (fresh, unique) = elim (Bool-cases (x.name == name)) [
    | inl here ↦ ground (
      arith,
      any-absent files (subst (λ n. find_file n files ≡ none) ((==_iff x.name name).0 here) fresh),
    )
    | inr there ↦ ground (arith, any-UniqueNames files unique)
  ]

-- A sweep of a directory whose entries have names of their own, at an instant with a timezone and with a
-- retention above zero, succeeds. Under each name it leaves what was there, unless that was a session log,
-- last modified before the instant less the retention, that can be removed: then it leaves nothing.
pub sweep-exact :
    (now : DateTime) (retention : ℕ) (files : List File)
    → (now.has_timezone ≡ true)
    → (ltb 0 retention ≡ true)
    → UniqueNames files
    → (result : SweepResult) × (left : List File) × (sweep_expired_logs now retention (some files)
        ≡ ok (result, some left))
      × ((name : ℕ) → find_file name left ≡ spared now.instant retention (find_file name files))
unfolding sweep_expired_logs session_logs
sweep-exact now retention files zoned positive unique = (
  (sweep_logs now.instant retention (session_logs files) files).0,
  (sweep_logs now.instant retention (session_logs files) files).1,
  ground arith,
  λ name.
      find_file-sweep_logs now.instant retention name (session_logs files) files
      ∙ ground (arith, any-logs now.instant retention name files)
      ∙ any-UniqueNames now.instant retention name files unique,
)
