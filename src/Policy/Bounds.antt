-- ===== src/Policy/Bounds.antt =====
-- Equal jitter stays between the minimum ratio and the whole of the nominal delay.
use native.Mathlib.Nat.{
  div-add-mod, le-div_iff_mul-le, div-mul-le_self, mul-le-mul_left, mul-le-mul_right,
}
use native.Mathlib.Decide.{dec_lt}
use formula1_dashboard.Common.{ℕ, suc, ◌+◌, ◌-◌, ◌*◌, ◌/◌, ◌%◌, ◌≤◌, ◌<◌, ◌≡◌, arith}
use formula1_dashboard.Policy.Number.{Fraction, round_div, microseconds, equal_jitter}

quotient_below : (q r d k : ℕ) → k ≤ q → q * d + r ≤ k * d → (r ≡ 0) × (q * d ≡ k * d)
quotient_below q r d k h e = grind arith

quotient_exact : (q d k : ℕ) → 0 < d → q * d ≡ k * d → q ≡ k
quotient_exact q d k pos e = grind arith

-- A rounded quotient stays below every number that the exact quotient stays below.
pub round_div-le : (n d k : ℕ) → 0 < d → n ≤ k * d → round_div n d ≤ k
unfolding round_div
round_div-le n d k pos h = elim (dec_lt (n / d) k) [
  | yes below ↦ ground arith
  | no above ↦
      ground
        (arith, quotient_below (n / d) (n % d) d k, quotient_exact (n / d) d k, div-add-mod n d)
]

div-le-round_div : (n d : ℕ) → n / d ≤ round_div n d
unfolding round_div
div-le-round_div n d = ground arith

pub le-round_div : (n d k : ℕ) → 0 < d → k * d ≤ n → k ≤ round_div n d
le-round_div n d k pos h = omega (arith, (le-div_iff_mul-le pos).1 h, div-le-round_div n d)

mix-le : (a b c d : ℕ) → a ≤ b → c ≤ d → a * d + (b - a) * c ≤ b * d
mix-le a b c d h k = grind arith

scaled : (n a b d q x : ℕ) → q * b ≤ n * a → a * d ≤ x → q * (b * d) ≤ n * x
scaled n a b d q x h k = omega (arith, mul-le-mul_right d h, mul-le-mul_left n k)

module _ (nominal : ℕ) (ratio jitter : Fraction) where
  pub equal_jitter-le :
      ratio.num ≤ suc ratio.pred_den
      → jitter.num ≤ suc jitter.pred_den
      → equal_jitter nominal ratio jitter ≤ microseconds nominal
  unfolding equal_jitter
  equal_jitter-le h k = round_div-le _ _ _ (omega arith) (
      mul-le-mul_left (microseconds nominal)
        (mix-le ratio.num (suc ratio.pred_den) jitter.num (suc jitter.pred_den) h k))

  pub le-equal_jitter :
      microseconds nominal * ratio.num / suc ratio.pred_den ≤ equal_jitter nominal ratio jitter
  unfolding equal_jitter
  le-equal_jitter = le-round_div _ _ _ (omega arith) (
      scaled (microseconds nominal) ratio.num (suc ratio.pred_den) (suc jitter.pred_den) _ _
        (div-mul-le_self (microseconds nominal * ratio.num) (suc ratio.pred_den)) (omega arith))
