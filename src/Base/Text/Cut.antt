-- ===== src/Base/Text/Cut.antt =====
-- `cut`, `split` and `join` against one another, and texts that hold no given byte.
use Prim.Native.Nat.{ℕ, zero, suc, ◌+◌, ◌<◌}
use mathlib.Core.Path.{◌≡◌, refl, ap}
use mathlib.Core.Logic.{◌≢◌, inl, inr}
use mathlib.Core.Option.{Option, none, some}
use mathlib.Core.List.{[], ◌∷◌, ◌++◌}
use native.Mathlib.Omega.{arith}
use ssh2incus.Base.Lists.{All, length, All-append}
use ssh2incus.Base.Text.{
  Text, cut, cut_prefix, has_prefix, replace_from, replace_all, prepend, contains_byte, false,
}
use ssh2incus.Base.Tests.{Bool-cases, ◌==◌}

-- No byte of the text is `b`.
abbrev pub Lacks : ℕ → Text → Type 0
Lacks b s = All (λ c. c ≢ b) s

pub Lacks-append : (b : ℕ) (s t : Text) → Lacks b s → Lacks b t → Lacks b (s ++ t)
Lacks-append b = All-append (λ c. c ≢ b)

-- The first separator is the one that was put in.
pub cut-append : (sep : ℕ) (s t : Text) → Lacks sep s → cut sep (s ++ sep ∷ t) ≡ some (s, t)
unfolding cut
cut-append sep [] t h = ground arith
cut-append sep (c ∷ s) t (h, hs) = ground (arith, cut-append sep s t hs)

pub cut-eq-none : (sep : ℕ) (s : Text) → Lacks sep s → cut sep s ≡ none
unfolding cut
cut-eq-none sep [] h = refl
cut-eq-none sep (c ∷ s) (h, hs) = ground (arith, cut-eq-none sep s hs)

-- What follows the separator is shorter than the text.
after : Option (Text × Text) → ℕ
after none = 0
after (some (a, b)) = suc (length b)

after-prepend : (c : ℕ) (o : Option (Text × Text)) → after (prepend c o) ≡ after o
unfolding after
after-prepend c none = refl
after-prepend c (some (a, b)) = refl

after-cut : (sep : ℕ) (s : Text) → after (cut sep s) < suc (length s)
unfolding cut after
after-cut sep [] = omega arith
after-cut sep (c ∷ s) = ground (arith, after-cut sep s, after-prepend c (cut sep s))

pub length-cut : (sep : ℕ) (s a b : Text) → cut sep s ≡ some (a, b) → length b < length s
unfolding after
length-cut sep s a b h = omega (arith, after-cut sep s, ap after h)

pub length-cut_prefix : (p s t : Text) → cut_prefix p s ≡ some t → length t + length p ≡ length s
unfolding cut_prefix
length-cut_prefix [] s t h = ground arith
length-cut_prefix (c ∷ p) [] t h = cc
length-cut_prefix (c ∷ p) (d ∷ s) t h = ground (arith, length-cut_prefix p s t)

-- A pattern whose first byte does not occur is replaced nowhere.
pub replace_from-eq_self :
    (c : ℕ) (old new s : Text) → Lacks c s → replace_from (c ∷ old) new zero s ≡ s
unfolding replace_from has_prefix
replace_from-eq_self c old new [] h = refl
replace_from-eq_self c old new (d ∷ s) (h, hs) = ground (arith, replace_from-eq_self c old new s hs)

pub replace_all-eq_self : (c : ℕ) (old new s : Text) → Lacks c s → replace_all (c ∷ old) new s ≡ s
unfolding replace_all
replace_all-eq_self c old new s h = replace_from-eq_self c old new s h

pub contains_byte-Lacks : (b : ℕ) (s : Text) → contains_byte b s ≡ false → Lacks b s
unfolding contains_byte
contains_byte-Lacks b [] h = tt
contains_byte-Lacks b (c ∷ s) h =
    let rest = contains_byte-Lacks b s in
    elim (Bool-cases (contains_byte b s)) [
      | inl there ↦ ground (arith, there)
      | inr gone ↦ ((λ e. ground (arith, e, gone)), rest gone)
    ]

-- What a cut gives: the parts around the first separator, or a text without it.
abbrev pub CutBy : ℕ → Text → Option (Text × Text) → Type 0
CutBy sep s none = Lacks sep s
CutBy sep s (some (a, b)) = (s ≡ a ++ sep ∷ b) × Lacks sep a

CutBy-prepend :
    (sep c : ℕ) (s : Text) (o : Option (Text × Text))
    → c ≢ sep
    → CutBy sep s o
    → CutBy sep (c ∷ s) (prepend c o)
CutBy-prepend sep c s none h k = (h, k)
CutBy-prepend sep c s (some (a, b)) h (e, lacks) = (ap (λ t. c ∷ t) e, (h, lacks))

pub cut-CutBy : (sep : ℕ) (s : Text) → CutBy sep s (cut sep s)
unfolding cut
cut-CutBy sep [] = tt
cut-CutBy sep (c ∷ s) = elim (Bool-cases (c == sep)) [
  | inl same ↦ rw same (ap (λ b. b ∷ s) (ground arith), tt)
  | inr other ↦ rw other (CutBy-prepend sep c s (cut sep s) (ground arith) (cut-CutBy sep s))
]
