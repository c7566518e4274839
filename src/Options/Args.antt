-- ===== src/Options/Args.antt =====
-- init.go, parseArgs. A loop over a string goes through its runes, and an invalid byte is the rune
-- U+FFFD; WriteRune writes a rune back as UTF-8. So the loop takes the bytes of the text with each
-- invalid byte replaced, one at a time, since every byte that it tests for is ASCII.
use ssh2incus.Base.{
  leb, ltb, ◌||◌, zero, suc, Option, none, some, ℕ, Bool, true, false, not, ◌&&◌, List, [], ◌∷◌,
  ◌++◌, ◌==◌, if◌then◌else◌,
}
use ssh2incus.Base.Text.{Text, is_empty}

-- The variables of the loop.
pub record Scan : Type 0 where
  pub args : List Text
  pub current_arg : Text
  pub in_quotes : Bool
  pub escape_next : Bool

abbrev pub no_scan : Scan
no_scan = record { args = []; current_arg = []; in_quotes = false; escape_next = false }

-- An argument that is not empty is appended, and the builder is reset.
abbrev pub end_arg : Scan → Scan
end_arg sc =
    if is_empty sc.current_arg
    then sc
    else record sc { args = sc.args ++ sc.current_arg ∷ []; current_arg = [] }

-- The body of the loop.
unfoldable pub scan_rune : ℕ → Scan → Scan
scan_rune r sc =
    let written = record sc { current_arg = sc.current_arg ++ r ∷ [] } in
    if sc.escape_next
    then record written { escape_next = false }
    else if r == 92
    then record sc { escape_next = true }
    else if r == b'"'
    then record sc { in_quotes = not sc.in_quotes }
    else if (r == 32) && not sc.in_quotes
    then end_arg sc
    else written

unfoldable pub scan_runes : Text → Scan → Scan
unfolding scan_rune
scan_runes [] sc = sc
scan_runes (r ∷ s) sc = scan_runes s (scan_rune r sc)

abbrev is_within : ℕ → ℕ → ℕ → Bool
is_within low high c = leb low c && leb c high

-- A byte of the form 10xxxxxx.
abbrev is_continuation : ℕ → Bool
is_continuation c = is_within 128 191 c

-- The first two bytes of a rune of three, and of four.
abbrev is_three : ℕ → ℕ → Bool
is_three c d =
    ((c == 224) && is_within 160 191 d)
    || ((is_within 225 236 c || is_within 238 239 c) && is_continuation d)
    || ((c == 237) && is_within 128 159 d)

abbrev is_four : ℕ → ℕ → Bool
is_four c d =
    ((c == 240) && is_within 144 191 d)
    || (is_within 241 243 c && is_continuation d)
    || ((c == 244) && is_within 128 143 d)

-- How many bytes of the text follow its first in a valid rune; none if there is no valid rune. The
-- second byte is bounded where the encoding would be too long, a surrogate, or above U+10FFFF.
unfoldable pub rune_tail : Text → Option ℕ
rune_tail [] = none
rune_tail (c ∷ []) = if ltb c 128 then some 0 else none
rune_tail (c ∷ d ∷ []) =
    if ltb c 128 then some 0 else if is_within 194 223 c && is_continuation d then some 1 else none
rune_tail (c ∷ d ∷ e ∷ []) =
    if ltb c 128
    then some 0
    else if is_within 194 223 c && is_continuation d
    then some 1
    else if is_three c d && is_continuation e
    then some 2
    else none
rune_tail (c ∷ d ∷ e ∷ f ∷ s) =
    if ltb c 128
    then some 0
    else if is_within 194 223 c && is_continuation d
    then some 1
    else if is_three c d && is_continuation e
    then some 2
    else if is_four c d && is_continuation e && is_continuation f
    then some 3
    else none

-- The bytes of the runes, where an invalid byte is U+FFFD. `n` bytes of a rune are still to come.
unfoldable pub valid_bytes : ℕ → Text → Text
unfolding rune_tail
valid_bytes n [] = []
valid_bytes (suc n) (c ∷ s) = c ∷ valid_bytes n s
valid_bytes zero (c ∷ s) = elim (rune_tail (c ∷ s)) [
  | none ↦ 239 ∷ 191 ∷ 189 ∷ valid_bytes zero s
  | some n ↦ c ∷ valid_bytes n s
]

unfoldable pub parse_args : Text → List Text
unfolding scan_runes valid_bytes
parse_args s = (end_arg (scan_runes (valid_bytes 0 s) no_scan)).args
