-- ===== src/Base/Int.antt =====
-- Go's `int` as a signed integer: `negsuc n` is -(n + 1).
use Prim.Native.Nat.{ℕ, zero, suc}
use mathlib.Core.Bool.{Bool, true, false}

pub data ℤ : Type 0 where
  pos : ℕ → ℤ
  negsuc : ℕ → ℤ

-- n > 0
abbrev pub positive : ℤ → Bool
positive (pos zero) = false
positive (pos (suc n)) = true
positive (negsuc n) = false

-- -n
abbrev pub negate : ℕ → ℤ
negate zero = pos zero
negate (suc n) = negsuc n
