-- ===== src/Base/Text.antt =====
-- Go strings as lists of bytes, with the functions of `strings` and `strconv` that the program calls.
-- A separator is one byte wherever the program passes a separator of one byte.
pub mod Laws
pub mod Cut
pub mod Split
pub mod Decimal
pub mod Numbers
pub mod Space
pub mod Order
pub mod HostPort
pub mod Path
use Prim.Native.Nat.{ℕ, zero, suc, ◌+◌, ◌-◌, ◌*◌, ◌^◌}
use Prim.Native.Char.{code}
use Prim.Native.String.{String}
use mathlib.Core.Bool.{Bool, true, false, ◌&&◌, ◌||◌}
use mathlib.Core.Option.{Option, none, some}
use mathlib.Core.List.{List, [], ◌∷◌, ◌++◌}
use ssh2incus.Base.Tests.{ltb, leb, ◌==◌, if◌then◌else◌}
use ssh2incus.Base.Lists.{length}
use ssh2incus.Base.Int.{ℤ, pos, negate}

abbrev pub Text : Type 0
Text = List ℕ

-- A literal of the source.
abbrev pub codes : String → Text
codes String.[] = []
codes (String.◌∷◌ c s) = code c ∷ codes s

unfoldable pub text_eq : Text → Text → Bool
text_eq [] [] = true
text_eq [] (d ∷ t) = false
text_eq (c ∷ s) [] = false
text_eq (c ∷ s) (d ∷ t) = (c == d) && text_eq s t

abbrev pub is_empty : Text → Bool
is_empty [] = true
is_empty (c ∷ s) = false

-- s != "" && s[0] == c
abbrev pub starts_with_byte : ℕ → Text → Bool
starts_with_byte c [] = false
starts_with_byte c (d ∷ s) = d == c

-- strings.CutPrefix
unfoldable pub cut_prefix : Text → Text → Option Text
cut_prefix [] s = some s
cut_prefix (c ∷ p) [] = none
cut_prefix (c ∷ p) (d ∷ s) = if c == d then cut_prefix p s else none

abbrev pub is_some {ℓ} : {A : Type ℓ} → Option A → Bool
is_some none = false
is_some (some a) = true

abbrev pub or_else {ℓ} : {A : Type ℓ} → Option A → A → A
or_else none d = d
or_else (some a) d = a

-- strings.HasPrefix, strings.TrimPrefix
unfoldable pub has_prefix : Text → Text → Bool
unfolding cut_prefix
has_prefix p s = is_some (cut_prefix p s)

unfoldable pub trim_prefix : Text → Text → Text
unfolding cut_prefix
trim_prefix p s = or_else (cut_prefix p s) s

-- strings.Cut by one byte; `none` is ok == false.
abbrev prepend : ℕ → Option (Text × Text) → Option (Text × Text)
prepend c none = none
prepend c (some (a, b)) = some (c ∷ a, b)

unfoldable pub cut : ℕ → Text → Option (Text × Text)
cut sep [] = none
cut sep (c ∷ s) = if c == sep then some ([], s) else prepend c (cut sep s)

-- strings.Split by one byte
abbrev extend_first : ℕ → List Text → List Text
extend_first c [] = (c ∷ []) ∷ []
extend_first c (f ∷ fs) = (c ∷ f) ∷ fs

unfoldable pub split : ℕ → Text → List Text
split sep [] = [] ∷ []
split sep (c ∷ s) = let rest = split sep s in if c == sep then [] ∷ rest else extend_first c rest

-- strings.Join
unfoldable pub join : Text → List Text → Text
join sep [] = []
join sep (f ∷ []) = f
join sep (f ∷ g ∷ fs) = f ++ (sep ++ join sep (g ∷ fs))

-- strings.Contains
unfoldable pub contains : Text → Text → Bool
unfolding has_prefix
contains sub [] = is_empty sub
contains sub (c ∷ s) = has_prefix sub (c ∷ s) || contains sub s

unfoldable pub contains_byte : ℕ → Text → Bool
contains_byte b [] = false
contains_byte b (c ∷ s) = c == b || contains_byte b s

-- strings.ReplaceAll for a text that is not empty. `skip` bytes of a match are still to be dropped.
pub replace_from : Text → Text → ℕ → Text → Text
replace_from old new skip [] = []
replace_from old new (suc skip) (c ∷ s) = replace_from old new skip s
replace_from old new zero (c ∷ s) =
    let replaced = new ++ replace_from old new (length old - 1) s in
    let kept = c ∷ replace_from old new zero s in if has_prefix old (c ∷ s) then replaced else kept

unfoldable pub replace_all : Text → Text → Text → Text
unfolding replace_from has_prefix
replace_all old new s = replace_from old new zero s

-- strconv.Atoi: an optional sign, digits, and the range of a 64-bit `int`.
unfoldable pub digits : ℕ → Text → Option ℕ
digits n [] = some n
digits n (c ∷ s) = if leb b'0' c && leb c b'9' then digits (n * 10 + (c - b'0')) s else none

abbrev in_range : Bool → Option ℕ → Option ℤ
in_range negative none = none
in_range true (some n) = if leb n (2 ^ 63) then some (negate n) else none
in_range false (some n) = if ltb n (2 ^ 63) then some (pos n) else none

abbrev unsigned : Bool → Text → Option ℤ
unsigned negative [] = none
unsigned negative (c ∷ s) = in_range negative (digits 0 (c ∷ s))

unfoldable pub atoi : Text → Option ℤ
unfolding digits
atoi [] = none
atoi (c ∷ s) =
    if c == b'-'
    then unsigned true s
    else if c == b'+'
    then unsigned false s
    else unsigned false (c ∷ s)

-- The value that strconv.Atoi returns, also beside an error: 0 for a text that is no number, and the
-- nearest `int` for a number out of range. A number that passes 64 bits ends the scan.
unfoldable pub clipped : ℕ → Text → Option ℕ
clipped n [] = some n
clipped n (c ∷ s) =
    let next = n * 10 + (c - b'0') in
    let rest = clipped next s in
    if leb b'0' c && leb c b'9'
    then (if ltb next (2 ^ 64) then rest else some (2 ^ 64 - 1))
    else none

abbrev nearest : Bool → Option ℕ → ℤ
nearest negative none = pos 0
nearest true (some n) = if leb n (2 ^ 63) then negate n else negate (2 ^ 63)
nearest false (some n) = if ltb n (2 ^ 63) then pos n else pos (2 ^ 63 - 1)

abbrev unsigned_value : Bool → Text → ℤ
unsigned_value negative [] = pos 0
unsigned_value negative (c ∷ s) = nearest negative (clipped 0 (c ∷ s))

unfoldable pub atoi_value : Text → ℤ
unfolding clipped
atoi_value [] = pos 0
atoi_value (c ∷ s) =
    if c == b'-'
    then unsigned_value true s
    else if c == b'+'
    then unsigned_value false s
    else unsigned_value false (c ∷ s)
