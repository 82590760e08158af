-- ===== src/Freshness/Archive.antt =====
-- When a session is fetched: once after the grace period, and once after each correction checkpoint.
use formula1_dashboard.Common.{
  ℕ, ◌≤◌, ◌<◌, ◌≡◌, ◌≢◌, ◌↔◌, ◌⊎◌, refl, true, false, Option, none, some, List, [], ◌∷◌, arith, ltb,
  leb, select,
}
use formula1_dashboard.Policy.Settings.{ValidSettings}
use formula1_dashboard.Policy.Retry.{DateTime}
use formula1_dashboard.Freshness.{
  correction_checkpoints, checkpoint_eligibility, session_eligibility,
}

-- Some checkpoint lies after the completion and is not in the future.
abbrev pub HasDue : ℕ → ℕ → List ℕ → Type 0
HasDue completed now [] = ⊥
HasDue completed now (c ∷ cs) = ((completed < c) × (c ≤ now)) ⊎ HasDue completed now cs

due : ℕ → ℕ → List ℕ → List ℕ
due completed now cs = select (λ c. leb c now) (select (λ c. ltb completed c) cs)

due-nonempty :
    (completed now : ℕ) (cs : List ℕ) → due completed now cs ≢ [] → HasDue completed now cs
unfolding due select
due-nonempty completed now [] h = h refl
due-nonempty completed now (c ∷ cs) h = ground (arith, due-nonempty completed now cs)

HasDue-due : (completed now : ℕ) (cs : List ℕ) → HasDue completed now cs → due completed now cs ≢ []
unfolding due select
HasDue-due completed now [] h e = h
HasDue-due completed now (c ∷ cs) h e = ground (arith, HasDue-due completed now cs)

eligible-iff-nonempty :
    (ds us : List ℕ) → ((checkpoint_eligibility ds us).eligible ≡ true) ↔ (ds ≢ [])
unfolding checkpoint_eligibility
eligible-iff-nonempty [] [] = ground arith
eligible-iff-nonempty [] (u ∷ us) = ground arith
eligible-iff-nonempty (d ∷ ds) us = ground arith

module _ (end now : ℕ) (completed_at : DateTime) (s : ValidSettings) where
  -- A session that was fetched before is eligible exactly when some correction checkpoint lies after
  -- its completion and is not in the future.
  pub eligible-iff-HasDue :
      ((session_eligibility end (some completed_at) now s).eligible ≡ true)
      ↔ HasDue completed_at.instant now (correction_checkpoints end s)
  unfolding session_eligibility due
  eligible-iff-HasDue =
      let cs = correction_checkpoints end s in
      let found =
        eligible-iff-nonempty (due completed_at.instant now cs)
          (select (λ c. ltb completed_at.instant c) cs) in
      (
        (λ e. due-nonempty completed_at.instant now cs (found.0 e)),
        λ h. found.1 (HasDue-due completed_at.instant now cs h),
      )

not-HasDue_self : (now : ℕ) (cs : List ℕ) → ¬ HasDue now now cs
not-HasDue_self now [] h = h
not-HasDue_self now (c ∷ cs) h = ground (arith, not-HasDue_self now cs)

-- A session is not eligible at the moment of its last completion.
pub refetch_settles :
    (end : ℕ) (fetched : DateTime) (s : ValidSettings)
    → (session_eligibility end (some fetched) fetched.instant s).eligible ≡ false
refetch_settles end fetched s = ground (
  arith,
  eligible-iff-HasDue end fetched.instant fetched s,
  not-HasDue_self fetched.instant (correction_checkpoints end s),
)

HasDue-later :
    (completed now u : ℕ) (us : List ℕ) (cs : List ℕ)
    → select (λ c. ltb completed c) cs ≡ u ∷ us
    → u ≤ now
    → HasDue completed now cs
unfolding select
HasDue-later completed now u us [] e h = cc
HasDue-later completed now u us (c ∷ cs) e h = ground (arith, HasDue-later completed now u us cs)

pending_checkpoint :
    (ds us : List ℕ) (t : ℕ)
    → (checkpoint_eligibility ds us).eligible ≡ false
    → (checkpoint_eligibility ds us).eligible_at ≡ some t
    → (vs : List ℕ) × (us ≡ t ∷ vs)
unfolding checkpoint_eligibility
pending_checkpoint [] [] t n e = ground arith
pending_checkpoint [] (u ∷ us) t n e = (us, ground arith)
pending_checkpoint (d ∷ ds) us t n e = ground arith

-- When an evaluation answers that a session is not eligible yet and names a time, the session is
-- eligible at that time and at every later one, as long as it is not fetched.
pub eligible_at_kept :
    (end now later t : ℕ) (completed_at : Option DateTime) (s : ValidSettings)
    → (session_eligibility end completed_at now s).eligible ≡ false
    → (session_eligibility end completed_at now s).eligible_at ≡ some t
    → t ≤ later
    → (session_eligibility end completed_at later s).eligible ≡ true
eligible_at_kept end now later t none s n e h = unfold session_eligibility in ground arith
eligible_at_kept end now later t (some c) s n e h =
    let cs = correction_checkpoints end s in
    let (us, first) =
      pending_checkpoint (due c.instant now cs) (select (λ x. ltb c.instant x) cs) t
        (unfold session_eligibility due in n) (unfold session_eligibility due in e) in
    (eligible-iff-HasDue end later c s).1 (HasDue-later c.instant later t us cs first h)
