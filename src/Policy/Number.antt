-- ===== src/Policy/Number.antt =====
-- Numbers of the retry policies. A Python float is here the fraction that it stands for: sums and
-- products of floats are exact, their rounding errors are left out. A `timedelta` is a number of
-- microseconds.
use formula1_dashboard.Common.{
  ℕ, suc, ◌+◌, ◌-◌, ◌*◌, ◌/◌, ◌%◌, ◌&&◌, Option, none, some, ltb, leb, ◌==◌, if◌then◌else◌,
}

-- The value num / (pred_den + 1).
pub record Fraction : Type 0 where
  pub num : ℕ
  pub pred_den : ℕ

-- What may be passed where the code wants a finite number: `not_number` is a bool or no number.
pub data Number : Type 0 where
  nonnegative : Fraction → Number
  negative : Fraction → Number
  not_finite : Number
  not_number : Number

-- The guard `0 <= x <= 1` of the jitter fractions, with the type and finiteness tests before it.
unfoldable pub unit_fraction : Number → Option Fraction
unit_fraction (nonnegative q) = if leb q.num (suc q.pred_den) then some q else none
unit_fraction _ = none

-- The guard `0 < x <= 1` of `jitter_min_ratio`.
unfoldable pub positive_unit_fraction : Number → Option Fraction
positive_unit_fraction (nonnegative q) =
    if ltb 0 q.num && leb q.num (suc q.pred_den) then some q else none
positive_unit_fraction _ = none

-- The nearest natural number to n / d, a half to the even one, as `timedelta` rounds microseconds.
unfoldable pub round_div : ℕ → ℕ → ℕ
round_div n d =
    let q = n / d in
    let r = n % d in
    if ltb (2 * r) d then q else if ltb d (2 * r) then q + 1 else if q % 2 == 0 then q else q + 1

abbrev pub microseconds : ℕ → ℕ
microseconds s = s * 1000000

-- `minimum + (nominal - minimum) * jitter` with `minimum = nominal * ratio`, in microseconds, where
-- `nominal` is a number of seconds and both fractions are at most 1.
unfoldable pub equal_jitter : ℕ → Fraction → Fraction → ℕ
equal_jitter nominal ratio jitter =
    let b = suc ratio.pred_den in
    let d = suc jitter.pred_den in
    round_div (microseconds nominal * (ratio.num * d + (b - ratio.num) * jitter.num)) (b * d)
