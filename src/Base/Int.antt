-- ===== src/Base/Int.antt =====
-- Python's integers.
use Prim.Native.Nat.{ℕ, zero, suc, ◌+◌}
use Prim.Native.String.{String, ◌++◌ as ◌<>◌}
use mathlib.Core.Bool.{Bool, true, false}
use aws_autorecycle.Base.Tests.{ltb, eqb}
use aws_autorecycle.Base.Text.{show_ℕ}

-- `negsuc n` is -(n + 1).
pub data ℤ : Type 0 where
  pos : ℕ → ℤ
  negsuc : ℕ → ℤ

-- `n + 1`
abbrev pub add_one : ℤ → ℤ
add_one (pos n) = pos (n + 1)
add_one (negsuc zero) = pos 0
add_one (negsuc (suc n)) = negsuc n

-- `n == m` and `n < m` for a natural number `m`
abbrev pub eqb_ℕ : ℤ → ℕ → Bool
eqb_ℕ (pos n) m = eqb n m
eqb_ℕ (negsuc n) m = false

abbrev pub ltb_ℕ : ℤ → ℕ → Bool
ltb_ℕ (pos n) m = ltb n m
ltb_ℕ (negsuc n) m = true

-- `str(n)`
unfoldable pub show_ℤ : ℤ → String
unfolding show_ℕ
show_ℤ (pos n) = show_ℕ n
show_ℤ (negsuc n) = "-" <> show_ℕ (n + 1)
