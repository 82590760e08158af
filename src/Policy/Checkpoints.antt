-- ===== src/Policy/Checkpoints.antt =====
-- The test `tuple(sorted(set(checkpoints))) != checkpoints` of `__post_init__`.
use formula1_dashboard.Common.{
  ℕ, ◌<◌, ◌≡◌, true, false, Bool-cases, inl, inr, List, [], ◌∷◌, ok, arith, All, leb, any, refl,
  subst, not, ℤ, ◌||◌,
}
use formula1_dashboard.Policy.Settings.{
  validate_checkpoints, checkpoint_seconds, sorted_set, insert_new, same_list,
}

-- Each number is below all that follow it.
abbrev pub Ascending : List ℕ → Type 0
Ascending [] = Unit
Ascending (x ∷ xs) = All (λ y. x < y) xs × Ascending xs

-- Every checkpoint lies after the grace period.
pub record IsAfter (grace : ℕ) (xs : List ℕ) : Type 0 where
  pub all : All (λ c. grace < c) xs

All-weaken : (a b : ℕ) (xs : List ℕ) → a < b → All (λ y. b < y) xs → All (λ y. a < y) xs
All-weaken a b [] h k = tt
All-weaken a b (x ∷ xs) h k = (omega arith, All-weaken a b xs h k.1)

All-insert_new :
    (a x : ℕ) (xs : List ℕ) → a < x → All (λ y. a < y) xs → All (λ y. a < y) (insert_new x xs)
unfolding insert_new
All-insert_new a x [] h k = (h, tt)
All-insert_new a x (y ∷ ys) h k = ground (arith, All-insert_new a x ys h k.1)

insert_new-Ascending : (x : ℕ) (xs : List ℕ) → Ascending xs → Ascending (insert_new x xs)
unfolding insert_new
insert_new-Ascending x [] h = (tt, tt)
insert_new-Ascending x (y ∷ ys) h =
    ground (arith, insert_new-Ascending x ys h.1, All-insert_new y x ys, All-weaken x y ys)

sorted_set-Ascending : (xs : List ℕ) → Ascending (sorted_set xs)
unfolding sorted_set
sorted_set-Ascending [] = tt
sorted_set-Ascending (x ∷ xs) = insert_new-Ascending x (sorted_set xs) (sorted_set-Ascending xs)

pub same_list-eq : (xs ys : List ℕ) → same_list xs ys ≡ true → xs ≡ ys
unfolding same_list
same_list-eq [] [] h = refl
same_list-eq [] (y ∷ ys) h = cc
same_list-eq (x ∷ xs) [] h = cc
same_list-eq (x ∷ xs) (y ∷ ys) h = ground (arith, same_list-eq xs ys)

any-after : (grace : ℕ) (xs : List ℕ) → any (λ v. leb v grace) xs ≡ false → All (λ c. grace < c) xs
unfolding any
any-after grace [] h = tt
any-after grace (x ∷ xs) h = ground (arith, any-after grace xs)

-- What the accepting branch knows of the numbers that it returns.
abbrev Accepted : ℕ → List ℕ → Type 0
Accepted grace xs = Ascending xs × IsAfter grace xs

accept :
    (grace : ℕ) (xs : List ℕ)
    → (any (λ v. leb v grace) xs || not (same_list (sorted_set xs) xs)) ≡ false
    → Accepted grace xs
accept grace xs h = (
  subst Ascending (same_list-eq (sorted_set xs) xs (ground arith)) (sorted_set-Ascending xs),
  record { all = any-after grace xs (ground arith) },
)

-- Accepted checkpoints ascend strictly, lie after the grace period, and there is one.
pub checkpoints_sound :
    (grace : ℕ) (zs : List ℤ) (xs : List ℕ)
    → validate_checkpoints grace zs ≡ ok xs
    → Ascending xs × IsAfter grace xs
unfolding validate_checkpoints
checkpoints_sound grace [] xs h = absurd (cc)
checkpoints_sound grace (z ∷ zs) xs h =
    elim (Bool-cases (
      any (λ v. leb v grace) (checkpoint_seconds (z ∷ zs))
      || not
          (same_list (sorted_set (checkpoint_seconds (z ∷ zs))) (checkpoint_seconds (z ∷ zs))))) [
            | inl refused ↦ absurd (ground arith)
            | inr passed ↦
                let e : checkpoint_seconds (z ∷ zs) ≡ xs = ground arith in
                subst (Accepted grace) e (accept grace (checkpoint_seconds (z ∷ zs)) passed)
          ]
