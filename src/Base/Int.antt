-- ===== src/Base/Int.antt =====
-- Integers; `negsuc n` is -(n + 1).
use Prim.Native.Nat.{ℕ, zero, suc}

pub data ℤ : Type 0 where
  pos : ℕ → ℤ
  negsuc : ℕ → ℤ

abbrev pub neg : ℕ → ℤ
neg zero = pos 0
neg (suc n) = negsuc n
