-- ===== src/Base/Numbers.antt =====
-- The integers over the native numbers: `int` of Go, where its bound does not matter.
use Prim.Native.Nat.{ℕ}

pub data ℤ : Type 0 where
  pos negsuc : ℕ → ℤ
