-- ===== src/Base/Text/Decimal.antt =====
-- `%d` and strconv.Itoa for a number that is not negative, and the way back through `digits`.
use Prim.Native.Nat.{ℕ, zero, suc, ◌+◌, ◌/◌, ◌%◌, ◌≤◌, ◌<◌}
use mathlib.Core.Path.{◌≡◌, ◌∙◌}
use mathlib.Core.Logic.{inl, inr}
use mathlib.Core.Bool.{true, false}
use mathlib.Core.Option.{some}
use mathlib.Core.List.{[], ◌∷◌, ◌++◌, append_assoc, append-nil}
use native.Mathlib.Omega.{arith}
use ssh2incus.Base.Tests.{Bool-cases, ltb, if◌then◌else◌}
use ssh2incus.Base.Lists.{All, All-append}
use ssh2incus.Base.Text.{Text, digits}

ltb→lt : (a b : ℕ) → ltb a b ≡ true → a < b
ltb→lt a b h = ground arith

tenth_lt : (n fuel : ℕ) → n < suc fuel → ltb n 10 ≡ false → n / 10 < fuel
tenth_lt n fuel h large = ground arith

digits_of : ℕ → ℕ → Text
digits_of zero n = []
digits_of (suc fuel) n =
    let longer = digits_of fuel (n / 10) ++ (b'0' + n % 10) ∷ [] in
    if ltb n 10 then (b'0' + n) ∷ [] else longer

unfoldable pub itoa : ℕ → Text
unfolding digits_of
itoa n = digits_of (suc n) n

abbrev pub IsDigit : ℕ → Type 0
IsDigit c = (b'0' ≤ c) × (c ≤ b'9')

digits_of-IsDigit : (fuel n : ℕ) → All IsDigit (digits_of fuel n)
unfolding digits_of
digits_of-IsDigit zero n = tt
digits_of-IsDigit (suc fuel) n =
    let last =
      All-append IsDigit (digits_of fuel (n / 10)) ((b'0' + n % 10) ∷ [])
        (digits_of-IsDigit fuel (n / 10)) (omega arith) in
    ground (arith, last)

pub itoa-IsDigit : (n : ℕ) → All IsDigit (itoa n)
unfolding itoa
itoa-IsDigit n = digits_of-IsDigit (suc n) n

module _ (fuel n : ℕ) (rest : Text) where
  last_digit : digits (n / 10) ((b'0' + n % 10) ∷ rest) ≡ digits n rest
  unfolding digits
  last_digit = ground arith

  only_digit : n < 10 → digits 0 ((b'0' + n) ∷ rest) ≡ digits n rest
  unfolding digits
  only_digit h = ground arith

-- Reading goes on from what the digits so far stand for.
digits-digits_of :
    (fuel n : ℕ) (rest : Text) → n < fuel → digits 0 (digits_of fuel n ++ rest) ≡ digits n rest
unfolding digits_of
digits-digits_of zero n rest h = absurd (omega arith)
digits-digits_of (suc fuel) n rest h = elim (Bool-cases (ltb n 10)) [
  | inl small ↦ rw small (only_digit fuel n rest (ltb→lt n 10 small))
  | inr large ↦
      rw (large, append_assoc)
        (digits-digits_of fuel (n / 10) ((b'0' + n % 10) ∷ rest) (tenth_lt n fuel h large)
          ∙ last_digit fuel n rest)
]

-- The decimal print of a number reads back as that number, whatever digits follow it.
pub digits-itoa : (n : ℕ) → digits 0 (itoa n) ≡ some n
unfolding itoa digits
digits-itoa n =
    rw (← append-nil (digits_of (suc n) n)) (digits-digits_of (suc n) n [] (omega arith))

digits_of-ne-nil : (fuel n : ℕ) → n < fuel → (c : ℕ) × (s : Text) × (digits_of fuel n ≡ c ∷ s)
unfolding digits_of
digits_of-ne-nil zero n h = absurd (omega arith)
digits_of-ne-nil (suc fuel) n h = elim (Bool-cases (ltb n 10)) [
  | inl small ↦ (b'0' + n, [], rw small)
  | inr large ↦
      let (c, s, e) = digits_of-ne-nil fuel (n / 10) (tenth_lt n fuel h large) in
      (c, s ++ (b'0' + n % 10) ∷ [], rw (large, e))
]

pub itoa-ne-nil : (n : ℕ) → (c : ℕ) × (s : Text) × (itoa n ≡ c ∷ s)
unfolding itoa
itoa-ne-nil n = digits_of-ne-nil (suc n) n (omega arith)
