-- ===== src/Common/Int.antt =====
-- Go's int, where the program reads one from a text that it does not control.
use Prim.Native.Nat.{ℕ}

-- `negsuc n` is -(n + 1).
pub data ℤ : Type 0 where
  pos : ℕ → ℤ
  negsuc : ℕ → ℤ
