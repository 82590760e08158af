-- ===== src/Login/Lockout.antt =====
-- What the limiter does to right and wrong passwords.
use formula1_dashboard.Common.{
  ℕ, ◌+◌, ◌-◌, ◌/◌, ◌≤◌, ◌<◌, ◌≡◌, ◌↔◌, refl, sym, subst, ◌||◌, true, false, leb, ◌==◌, arith, List,
  [], ◌∷◌, length, All,
}
use formula1_dashboard.Login.{
  Limiter, Clock, Answer, accepted, invalid_credentials, too_many_attempts, seconds_remaining,
  locked, record_failure, record_success, reject, login,
}

-- Wrong sign-ins one after another, with the answer to the last of them.
pub wrong : List Clock → Clock → Limiter → Answer × Limiter
unfolding login
wrong [] last l = login true false last l
wrong (c ∷ cs) last l = let (_, after) = login true false c l in wrong cs last after

-- A failure is checked before the lockout that it may start would pass.
abbrev pub InTime : ℕ → Clock → Type 0
InTime lockout c = (c.checked_at < c.failed_at + lockout)

-- When this failure is the limiter's maximum or a later one, a wrong password that is checked before
-- its own lockout would pass is refused as one too many, however long ago an earlier lockout ended,
-- and starts the lockout anew; the answer tells the seconds that are left.
pub wrong_after_lockout :
    (c : Clock) (l : Limiter)
    → l.max_attempts ≤ l.failures + 1
    → InTime l.lockout c
    → (login true false c l ≡ (
      too_many_attempts ((c.failed_at + l.lockout - c.told_at) / 1000000),
      record l { failures = l.failures + 1; locked_until = c.failed_at + l.lockout },
    ))
unfolding login reject locked record_failure seconds_remaining
wrong_after_lockout c l full h = ground arith

-- A limiter that is not locked, or has counted as many failures as it allows.
abbrev Settled : Limiter → Type 0
Settled l = ((l.locked_until == 0) || leb l.max_attempts l.failures) ≡ true

wrong_step :
    (c : Clock) (l : Limiter)
    → Settled l
    → InTime l.lockout c
    → (((login true false c l).0 ≡ invalid_credentials) ↔ (l.failures + 1 < l.max_attempts))
      × ((login true false c l).1.failures ≡ l.failures + 1)
      × ((login true false c l).1.max_attempts ≡ l.max_attempts)
      × ((login true false c l).1.lockout ≡ l.lockout)
      × Settled (login true false c l).1
unfolding login reject locked record_failure
wrong_step c l settled h = ground arith

wrong-Settled :
    (cs : List Clock) (last : Clock) (l : Limiter)
    → Settled l
    → All (InTime l.lockout) cs
    → InTime l.lockout last
    → ((wrong cs last l).0 ≡ invalid_credentials) ↔ (l.failures + length cs + 1 < l.max_attempts)
unfolding wrong
wrong-Settled [] last l settled a h = ground (arith, wrong_step last l settled h)
wrong-Settled (c ∷ cs) last l settled a h =
    let (_, counted, limit, lockout, next) = wrong_step c l settled a.0 in
    let rest =
      wrong-Settled cs last (login true false c l).1 next
        (subst (λ t. All (InTime t) cs) (sym lockout) a.1)
        (subst (λ t. InTime t last) (sym lockout) h) in
    ground (arith, rest, counted, limit)

-- From a limiter that is not locked, the last of a run of wrong passwords, each checked before its own
-- lockout would pass, is answered as invalid exactly when the failures counted then are below the
-- maximum.
pub wrong_run :
    (cs : List Clock) (last : Clock) (l : Limiter)
    → l.locked_until ≡ 0
    → All (InTime l.lockout) cs
    → InTime l.lockout last
    → ((wrong cs last l).0 ≡ invalid_credentials) ↔ (l.failures + length cs + 1 < l.max_attempts)
wrong_run cs last l unlocked a h = wrong-Settled cs last l ground arith a h

-- A right password is accepted in every state of the limiter, locked or not, and leaves it clean:
-- the next sign-ins count from zero.
pub right_accepted :
    (c : Clock) (l : Limiter)
    → login true true c l ≡ (accepted, record l { failures = 0; locked_until = 0 })
unfolding login record_success
right_accepted c l = refl
