-- ===== src/Base/Text/Numbers.antt =====
-- Printing a signed number in decimal, and strconv.Atoi as the way back.
use Prim.Native.Nat.{suc, ◌<◌, ◌^◌}
use mathlib.Core.Path.{◌≡◌}
use mathlib.Core.Option.{some}
use mathlib.Core.List.{◌∷◌}
use native.Mathlib.Omega.{arith}
use ssh2incus.Base.Lists.{All}
use ssh2incus.Base.Int.{ℤ, pos, negsuc}
use ssh2incus.Base.Text.{Text, atoi, digits}
use ssh2incus.Base.Text.Decimal.{itoa, IsDigit, itoa-IsDigit, digits-itoa, itoa-ne-nil}

-- fmt's %d
unfoldable pub show_int : ℤ → Text
show_int (pos n) = itoa n
show_int (negsuc n) = b'-' ∷ itoa (suc n)

-- The values of a 64-bit `int`.
abbrev pub IsInt : ℤ → Type 0
IsInt (pos n) = n < 2 ^ 63
IsInt (negsuc n) = n < 2 ^ 63

-- strconv.Atoi undoes `%d`.
pub atoi-show_int : (n : ℤ) → IsInt n → atoi (show_int n) ≡ some n
unfolding atoi show_int
atoi-show_int (pos n) h =
    let (c, s, e) = itoa-ne-nil n in
    let first : All IsDigit (c ∷ s) = rw e at (itoa-IsDigit n) in
    let value : digits 0 (c ∷ s) ≡ some n = rw e at (digits-itoa n) in
    rw e (ground (arith, value, first.0))
atoi-show_int (negsuc n) h =
    let (c, s, e) = itoa-ne-nil (suc n) in
    let value : digits 0 (c ∷ s) ≡ some (suc n) = rw e at (digits-itoa (suc n)) in
    rw e (ground (arith, value))
