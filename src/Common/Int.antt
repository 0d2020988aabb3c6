-- ===== src/Common/Int.antt =====
-- Signed integers over the native numbers (the library's ℤ stands on the unary numbers), as far as
-- the `int` options of the command line use them.
use Prim.Native.Nat.{ℕ}
use mathlib.Core.Bool.{Bool, false}
use quic_keys.Common.Tests.{ltb}

-- `negsuc n` is -(n + 1).
pub data ℤ : Type 0 where
  pos : ℕ → ℤ
  negsuc : ℕ → ℤ

abbrev pub pos_part : ℤ → ℕ
pos_part (pos n) = n
pos_part (negsuc n) = 0

-- `z > 0`
abbrev pub is_positive : ℤ → Bool
is_positive (pos n) = ltb 0 n
is_positive (negsuc n) = false
