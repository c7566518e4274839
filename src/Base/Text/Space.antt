-- ===== src/Base/Text/Space.antt =====
-- strings.TrimSpace on UTF-8, and strings.ToLower where only ASCII letters matter.
use Prim.Native.Nat.{ℕ, zero, suc, ◌+◌}
use mathlib.Core.Bool.{◌&&◌, ◌||◌}
use mathlib.Core.List.{[], ◌∷◌, reverse}
use ssh2incus.Base.Tests.{leb, ◌==◌, if◌then◌else◌}
use ssh2incus.Base.Text.{Text}

-- The number of bytes of the white space of unicode.IsSpace that a text begins with, 0 for none.
unfoldable pub space_at : Text → ℕ
space_at [] = 0
space_at (a ∷ s) = if (leb 9 a && leb a 13) || (a == 32) then 1 else wide_at a s
  where
    wide_at : ℕ → Text → ℕ
    wide_at a [] = 0
    wide_at a (b ∷ []) = if (a == 194) && ((b == 133) || (b == 160)) then 2 else 0
    wide_at a (b ∷ c ∷ s) =
        if (a == 194) && ((b == 133) || (b == 160))
        then 2
        else if (a == 225) && (b == 154) && (c == 128)
        then 3
        else if (a == 226)
            && (b == 128)
            && ((leb 128 c && leb c 138) || (c == 168) || (c == 169) || (c == 175))
        then 3
        else if (a == 226) && (b == 129) && (c == 159)
        then 3
        else if (a == 227) && (b == 128) && (c == 128)
        then 3
        else 0

-- The same at the end of a text, given in reverse.
unfoldable pub space_before : Text → ℕ
space_before [] = 0
space_before (c ∷ s) = if (leb 9 c && leb c 13) || (c == 32) then 1 else wide_before c s
  where
    wide_before : ℕ → Text → ℕ
    wide_before c [] = 0
    wide_before c (b ∷ []) = if (b == 194) && ((c == 133) || (c == 160)) then 2 else 0
    wide_before c (b ∷ a ∷ s) =
        if (b == 194) && ((c == 133) || (c == 160))
        then 2
        else if (a == 225) && (b == 154) && (c == 128)
        then 3
        else if (a == 226)
            && (b == 128)
            && ((leb 128 c && leb c 138) || (c == 168) || (c == 169) || (c == 175))
        then 3
        else if (a == 226) && (b == 129) && (c == 159)
        then 3
        else if (a == 227) && (b == 128) && (c == 128)
        then 3
        else 0

-- `skip` bytes of a white space are still to be dropped.
unfoldable pub drop_spaces : (Text → ℕ) → ℕ → Text → Text
drop_spaces width skip [] = []
drop_spaces width (suc skip) (c ∷ s) = drop_spaces width skip s
drop_spaces width zero (c ∷ s) = elim (width (c ∷ s)) [
  | zero ↦ c ∷ s
  | suc n ↦ drop_spaces width n s
]

unfoldable pub trim_space : Text → Text
unfolding space_at space_before drop_spaces
trim_space s = reverse (drop_spaces space_before 0 (reverse (drop_spaces space_at 0 s)))

unfoldable pub to_lower : Text → Text
to_lower [] = []
to_lower (c ∷ s) = (if leb b'A' c && leb c b'Z' then c + 32 else c) ∷ to_lower s
