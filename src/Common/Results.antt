-- ===== src/Common/Results.antt =====
-- The outcome of code that may raise: a value, or the error that was raised.
use mathlib.Core.Path.{◌≡◌, refl}
use mathlib.Core.Logic.{◌⊎◌, inl, inr}
use mathlib.Core.Bool.{Bool, true, false}
use mathlib.Core.Option.{Option, none, some}

pub data Outcome {ℓ} (E A : Type ℓ) : Type ℓ where
  err : E → Outcome E A
  ok : A → Outcome E A

abbrev pub is_ok {ℓ} : {E A : Type ℓ} → Outcome E A → Bool
is_ok (err reason) = false
is_ok (ok value) = true

-- The value of an optional, or an error where there is none.
abbrev pub or_raise {ℓ} : {E A : Type ℓ} → E → Option A → Outcome E A
or_raise reason none = err reason
or_raise reason (some value) = ok value

-- `if not test: raise error`.
abbrev pub guard {ℓ} : {E : Type ℓ} → Bool → E → Outcome E (Unit {ℓ})
guard false reason = err reason
guard true reason = ok tt

infixl 5 ◌>>=◌ ◌>>◌
abbrev pub ◌>>◌ {ℓ} : {E B : Type ℓ} → Outcome E (Unit {ℓ}) → Outcome E B → Outcome E B
err reason >> later = err reason
ok done >> later = later

abbrev pub ◌>>=◌ {ℓ} : {E A B : Type ℓ} → Outcome E A → (A → Outcome E B) → Outcome E B
err reason >>= later = err reason
ok value >>= later = later value

pub Outcome-cases {ℓ} :
    {E A : Type ℓ} (m : Outcome E A) → ((a : A) × (m ≡ ok a)) ⊎ ((e : E) × (m ≡ err e))
Outcome-cases (err e) = inr (e, refl)
Outcome-cases (ok a) = inl (a, refl)

-- The two steps of a sequence that ended well.
pub >>=-eq-ok {ℓ} :
    {E A B : Type ℓ} (first : Outcome E A) (later : A → Outcome E B) {end : B}
    → (first >>= later) ≡ ok end
    → (middle : A) × (first ≡ ok middle) × (later middle ≡ ok end)
>>=-eq-ok (err reason) later h = cc
>>=-eq-ok (ok value) later h = (value, refl, h)

pub never-ok {ℓ} : {E A : Type ℓ} (m : Outcome E A) → ((a : A) → ¬ (m ≡ ok a)) → is_ok m ≡ false
never-ok (ok a) f = absurd (f a refl)
never-ok (err e) f = refl
