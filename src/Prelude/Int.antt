-- ===== src/Prelude/Int.antt =====
-- The `int` of C, for values that stay within its range.
use Prim.Native.Nat.{ℕ}

-- `negsuc n` is -(n + 1).
pub data ℤ : Type 0 where
  pos : ℕ → ℤ
  negsuc : ℕ → ℤ
