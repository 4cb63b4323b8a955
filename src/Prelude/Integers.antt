-- ===== src/Prelude/Integers.antt =====
-- Whole numbers with a sign: `negsuc n` is -(n + 1).
use Prim.Native.Nat.{ℕ}

pub data ℤ : Type 0 where
  pos negsuc : ℕ → ℤ
