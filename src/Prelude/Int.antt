-- ===== src/Prelude/Int.antt =====
-- Signed integers over the native numbers, as far as the program's counts use them.
use Prim.Native.Nat.{ℕ}

-- `negsuc n` is -(n + 1).
pub data ℤ : Type 0 where
  pos : ℕ → ℤ
  negsuc : ℕ → ℤ

-- `max(0, value)`
abbrev pub clamp_nonneg : ℤ → ℕ
clamp_nonneg (pos n) = n
clamp_nonneg (negsuc n) = 0
