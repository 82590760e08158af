-- ===== src/Common/Integers.antt =====
-- Integers over the native numbers, as far as the program's configuration needs them.
use Prim.Native.Nat.{ℕ}

-- `negsuc n` is -(n + 1).
pub data ℤ : Type 0 where
  pos : ℕ → ℤ
  negsuc : ℕ → ℤ
