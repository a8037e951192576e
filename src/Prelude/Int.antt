-- ===== src/Prelude/Int.antt =====
-- Signed numbers, for amounts that the source compares with zero.
use Prim.Native.Nat.{ℕ}
use mathlib.Core.Bool.{Bool, false}
use governator.Prelude.Tests.{ltb}

-- `negsuc n` is -(n + 1).
pub data ℤ : Type 0 where
  pos : ℕ → ℤ
  negsuc : ℕ → ℤ

abbrev pub pos_part : ℤ → ℕ
pos_part (pos n) = n
pos_part (negsuc n) = 0

abbrev pub is_positive : ℤ → Bool
is_positive (pos n) = ltb 0 n
is_positive (negsuc n) = false
