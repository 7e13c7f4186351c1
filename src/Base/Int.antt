-- ===== src/Base/Int.antt =====
-- Signed integers over the native numbers: exit codes, counts that may be -1, decimal mantissas.
use Prim.Native.Nat.{ℕ}
use mathlib.Core.Bool.{Bool, true, false}
use hadcd_agent.Base.Tests.{◌==◌}

-- `negsuc n` is -(n + 1).
pub data ℤ : Type 0 where
  pos : ℕ → ℤ
  negsuc : ℕ → ℤ

abbrev pub is_zero : ℤ → Bool
is_zero (pos n) = n == 0
is_zero (negsuc n) = false

-- `0 < z`
abbrev pub is_positive : ℤ → Bool
is_positive (pos n) = elim (n == 0) [ true ↦ false | false ↦ true ]
is_positive (negsuc n) = false
