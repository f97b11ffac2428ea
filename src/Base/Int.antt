-- ===== src/Base/Int.antt =====
-- Signed integers, for the columns and arguments of type i64.
use Prim.Native.Nat.{ℕ}

-- `negsuc n` is -(n + 1).
pub data ℤ : Type 0 where
  pos : ℕ → ℤ
  negsuc : ℕ → ℤ
