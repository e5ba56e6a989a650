-- ===== src/Common/Int.antt =====
-- Go's `int` and `int64`, as the integers that they hold, and the bounds that both have.
use Prim.Native.Nat.{ℕ}
use mathlib.Core.Bool.{Bool}
use native.Mathlib.Decide.{ℕ_discrete}
use mailu_operator.Common.Tests.{leb}

-- `negsuc n` is -(n + 1).
pub data ℤ : Type 0 where
  pos : ℕ → ℤ
  negsuc : ℕ → ℤ

unfoldable pub ℤ-discrete : Discrete ℤ
unfolding ℕ_discrete
ℤ-discrete = hlevel ℕ_discrete

-- `n` fits in 64 bits, two's complement: -2 ^ 63 ≤ n ≤ 2 ^ 63 - 1.
abbrev pub fits_int64 : ℤ → Bool
fits_int64 (pos n) = leb n 9223372036854775807
fits_int64 (negsuc n) = leb n 9223372036854775807
