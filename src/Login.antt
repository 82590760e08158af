-- ===== src/Login.antt =====
-- `AttemptLimiter` and the sign-in of `login` in backend/app/auth/api.py. The monotonic clock counts
-- in microseconds from a fixed origin; whether the password verifies is an argument. The tokens and
-- the cookie of an accepted sign-in are not modelled.
pub mod Lockout
use formula1_dashboard.Common.{
  ℕ, suc, ◌+◌, ◌-◌, ◌/◌, Bool, true, false, not, ltb, leb, ◌==◌, if◌then◌else◌,
}
use formula1_dashboard.Policy.Number.{microseconds}

-- `AttemptLimiter`; 0 in `locked_until` is its initial value.
pub record Limiter : Type 0 where
  pub max_attempts : ℕ
  pub lockout : ℕ
  pub failures : ℕ
  pub locked_until : ℕ

-- The limiter of the process, with `MAX_FAILED_ATTEMPTS` and `LOCKOUT_SECONDS`.
abbrev pub limiter : Limiter
limiter = record { max_attempts = 8; lockout = microseconds 300; failures = 0; locked_until = 0 }

unfoldable pub seconds_remaining : ℕ → Limiter → ℕ
seconds_remaining now l = (l.locked_until - now) / 1000000

-- `locked`, which may write.
unfoldable pub locked : ℕ → Limiter → Bool × Limiter
locked now l =
    if l.locked_until == 0
    then (false, l)
    else if leb l.locked_until now
    then (false, record l { failures = 0; locked_until = 0 })
    else (true, l)

unfoldable pub record_failure : ℕ → Limiter → Limiter
record_failure now l =
    let failures = l.failures + 1 in
    if leb l.max_attempts failures
    then record l { failures = failures; locked_until = now + l.lockout }
    else record l { failures = failures }

unfoldable pub record_success : Limiter → Limiter
record_success l = record l { failures = 0; locked_until = 0 }

pub data Answer : Type 0 where
  auth_not_required : Answer
  accepted : Answer
  invalid_credentials : Answer
  too_many_attempts : ℕ → Answer

-- The readings of the clock in one sign-in: in `record_failure`, `locked` and `seconds_remaining`.
pub record Clock : Type 0 where
  pub failed_at : ℕ
  pub checked_at : ℕ
  pub told_at : ℕ

-- The branch of a wrong password.
unfoldable pub reject : Clock → Limiter → Answer × Limiter
unfolding locked record_failure seconds_remaining
reject clock l =
    let (shut, after) = locked clock.checked_at (record_failure clock.failed_at l) in
    if shut
    then (too_many_attempts (seconds_remaining clock.told_at after), after)
    else (invalid_credentials, after)

unfoldable pub login : Bool → Bool → Clock → Limiter → Answer × Limiter
unfolding reject record_success
login required verified clock l =
    if not required
    then (auth_not_required, l)
    else if verified
    then (accepted, record_success l)
    else reject clock l
