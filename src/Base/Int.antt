-- ===== src/Base/Int.antt =====
-- `int`, over the native natural numbers.
use Prim.Native.Nat.{ℕ}

-- `negsuc n` is -1 - n.
pub data ℤ : Type 0 where
  pos : ℕ → ℤ
  negsuc : ℕ → ℤ
