-- ===== src/Shell/Unwrapped.antt =====
-- What a command that does not go through a shell has not in it.
use ssh2incus.Base.{
  ℕ, ◌≡◌, ◌≢◌, refl, ◌⊎◌, inl, inr, Bool, true, false, not, ◌||◌, List, [], ◌∷◌, ◌++◌,
  if◌then◌else◌, All, arith, ◌≤◌, ◌==◌, Bool-cases, sym, ap, ◌∙◌,
}
use ssh2incus.Base.Text.{Text, codes, is_empty, cut_prefix}
use ssh2incus.Base.Text.Space.{trim_space}
use ssh2incus.Shell.Wrapping.{
  any_byte, is_shell_byte, is_glob_byte, is_word_byte, begins_word, closes, begins_keyword,
  has_variable, has_substitution, has_keyword, matches_pattern, needs_shell_wrapping,
}

-- No byte of `|&;()<>`, none that `\s` means, and none of `*?[]{}~`.
abbrev pub IsPlainByte : ℕ → Type 0
IsPlainByte c =
    ((c ≢ b'|') × (c ≢ b'&') × (c ≢ b';') × (c ≢ b'(') × (c ≢ b')') × (c ≢ b'<') × (c ≢ b'>'))
    × ((c ≢ 32) × (c ≢ 9) × (c ≢ 10) × (c ≢ 12) × (c ≢ 13))
    × ((c ≢ b'*') × (c ≢ b'?') × (c ≢ b'[') × (c ≢ b']') × (c ≢ b'{') × (c ≢ b'}') × (c ≢ b'~'))

abbrev pub IsWordByte : ℕ → Type 0
IsWordByte c =
    ((b'a' ≤ c) × (c ≤ b'z'))
    ⊎ (((b'A' ≤ c) × (c ≤ b'Z')) ⊎ (((b'0' ≤ c) × (c ≤ b'9')) ⊎ (c ≡ b'_')))

-- Wherever a `$` stands before a byte, the byte is no letter, no digit and no underscore.
abbrev pub LacksVariable : Text → Type 0
LacksVariable s = (a b : Text) (c : ℕ) → s ≡ a ++ b'$' ∷ c ∷ b → IsWordByte c → ⊥

-- No two backticks have a text between them.
abbrev pub LacksSubstitution : Text → Type 0
LacksSubstitution s = (a b d : Text) (c : ℕ) → s ≡ a ++ b'`' ∷ c ∷ (b ++ b'`' ∷ d) → c ≡ b'`'

abbrev pub keywords : List Text
keywords =
    codes "if"
    ∷ codes "for"
    ∷ codes "while"
    ∷ codes "until"
    ∷ codes "case"
    ∷ codes "function"
    ∷ codes "source"
    ∷ codes "alias"
    ∷ codes "export"
    ∷ codes "set"
    ∷ codes "unset"
    ∷ []

abbrev pub EndsInWord : Text → Type 0
EndsInWord a = (b : Text) × (c : ℕ) × (a ≡ b ++ c ∷ []) × IsWordByte c

abbrev pub BeginsWithWord : Text → Type 0
BeginsWithWord a = (b : Text) × (c : ℕ) × (a ≡ c ∷ b) × IsWordByte c

-- Wherever a keyword stands, a word byte stands right before it or right behind it.
abbrev pub LacksKeyword : Text → Type 0
LacksKeyword s =
    All (λ k. (a b : Text) → s ≡ a ++ (k ++ b) → EndsInWord a ⊎ BeginsWithWord b) keywords

abbrev pub IsShellFree : Text → Type 0
IsShellFree s = All IsPlainByte s × LacksVariable s × LacksSubstitution s × LacksKeyword s

plain_byte : (c : ℕ) → is_shell_byte c ≡ false → is_glob_byte c ≡ false → IsPlainByte c
plain_byte c h k = ground arith

or_left : (a b : Bool) → (a || b) ≡ false → a ≡ false
or_left a b h = ground arith

or_right : (a b : Bool) → (a || b) ≡ false → b ≡ false
or_right a b h = ground arith

any_byte-plain :
    (s : Text)
    → any_byte is_shell_byte s ≡ false
    → any_byte is_glob_byte s ≡ false
    → All IsPlainByte s
unfolding any_byte
any_byte-plain [] h k = tt
any_byte-plain (c ∷ s) h k = (
  plain_byte c (or_left _ _ h) (or_left _ _ k),
  any_byte-plain s (or_right _ _ h) (or_right _ _ k),
)

IsWordByte-is_word_byte : (c : ℕ) → IsWordByte c → is_word_byte c ≡ true
IsWordByte-is_word_byte c h = ground arith

is_word_byte-IsWordByte : (c : ℕ) → is_word_byte c ≡ true → IsWordByte c
is_word_byte-IsWordByte c h = ground arith

has_variable-found :
    (a b : Text) (c : ℕ) → is_word_byte c ≡ true → has_variable (a ++ b'$' ∷ c ∷ b) ≡ true
unfolding has_variable
has_variable-found [] b c h = ground arith
has_variable-found (x ∷ a) b c h = ground (arith, has_variable-found a b c h)

closes-found : (b d : Text) → closes (b ++ b'`' ∷ d) ≡ true
unfolding closes
closes-found [] d = ground arith
closes-found (x ∷ b) d = ground (arith, closes-found b d)

has_substitution-found :
    (a b d : Text) (c : ℕ)
    → (c == b'`') ≡ false
    → has_substitution (a ++ b'`' ∷ c ∷ (b ++ b'`' ∷ d)) ≡ true
unfolding has_substitution
has_substitution-found [] b d c h = ground (arith, closes-found b d)
has_substitution-found (x ∷ a) b d c h = ground (arith, has_substitution-found a b d c h)

-- The byte before the end of `a`, or before `a`.
abbrev ends_word : Bool → Text → Bool
ends_word inside [] = inside
ends_word inside (c ∷ a) = ends_word (is_word_byte c) a

or_true : (a b : Bool) → b ≡ true → (a || b) ≡ true
or_true a b h = ground arith

has_keyword-found :
    (inside : Bool) (a : Text) (c : ℕ) (s : Text)
    → ends_word inside a ≡ false
    → begins_keyword (c ∷ s) ≡ true
    → has_keyword inside (a ++ c ∷ s) ≡ true
unfolding has_keyword
has_keyword-found inside [] c s h k = rw (h, k) refl
has_keyword-found inside (x ∷ a) c s h k =
    or_true _ _ (has_keyword-found (is_word_byte x) a c s h k)

ends_word-EndsInWord : (c : ℕ) (a : Text) → ends_word (is_word_byte c) a ≡ true → EndsInWord (c ∷ a)
ends_word-EndsInWord c [] h = ([], c, refl, is_word_byte-IsWordByte c h)
ends_word-EndsInWord c (d ∷ a) h =
    let (b, e, same, word) = ends_word-EndsInWord d a h in (c ∷ b, e, ap (λ t. c ∷ t) same, word)

ends_in_word : (a : Text) → ends_word false a ≡ true → EndsInWord a
ends_in_word [] h = cc
ends_in_word (c ∷ a) h = ends_word-EndsInWord c a h

begins_with_word : (b : Text) → begins_word b ≡ true → BeginsWithWord b
begins_with_word [] h = cc
begins_with_word (c ∷ b) h = (b, c, refl, is_word_byte-IsWordByte c h)

not_begins : (x y : Bool) → (not x ≡ true → y ≡ true) → y ≡ false → x ≡ true
not_begins true y f h = refl
not_begins false y f h = let k = f refl in cc

-- A keyword that stands in the text without a word byte around it is found.
keyword_lacks :
    (s a b : Text) (c : ℕ) (k : Text)
    → has_keyword false s ≡ false
    → (not (begins_word b) ≡ true → begins_keyword (c ∷ (k ++ b)) ≡ true)
    → s ≡ a ++ (c ∷ (k ++ b))
    → EndsInWord a ⊎ BeginsWithWord b
keyword_lacks s a b c k h found e = elim (Bool-cases (ends_word false a)) [
  | inl word ↦ inl (ends_in_word a word)
  | inr free ↦ inr (
      begins_with_word b (
        not_begins (begins_word b) (has_keyword false s)
          (λ n. ap (has_keyword false) e ∙ has_keyword-found false a c (k ++ b) free (found n)) h))
]

keyword-LacksKeyword : (s : Text) → has_keyword false s ≡ false → LacksKeyword s
unfolding begins_keyword cut_prefix
keyword-LacksKeyword s h = (
  λ a b. keyword_lacks s a b b'i' (codes "f") h (λ n. ground arith),
  (
    λ a b. keyword_lacks s a b b'f' (codes "or") h (λ n. ground arith),
    (
      λ a b. keyword_lacks s a b b'w' (codes "hile") h (λ n. ground arith),
      (
        λ a b. keyword_lacks s a b b'u' (codes "ntil") h (λ n. ground arith),
        (
          λ a b. keyword_lacks s a b b'c' (codes "ase") h (λ n. ground arith),
          (
            λ a b. keyword_lacks s a b b'f' (codes "unction") h (λ n. ground arith),
            (
              λ a b. keyword_lacks s a b b's' (codes "ource") h (λ n. ground arith),
              (
                λ a b. keyword_lacks s a b b'a' (codes "lias") h (λ n. ground arith),
                (
                  λ a b. keyword_lacks s a b b'e' (codes "xport") h (λ n. ground arith),
                  (
                    λ a b. keyword_lacks s a b b's' (codes "et") h (λ n. ground arith),
                    (λ a b. keyword_lacks s a b b'u' (codes "nset") h (λ n. ground arith), tt),
                  ),
                ),
              ),
            ),
          ),
        ),
      ),
    ),
  ),
)

variable-LacksVariable : (s : Text) → has_variable s ≡ false → LacksVariable s
variable-LacksVariable s h a b c e word =
    let found = ap has_variable e ∙ has_variable-found a b c (IsWordByte-is_word_byte c word) in cc

substitution-LacksSubstitution : (s : Text) → has_substitution s ≡ false → LacksSubstitution s
substitution-LacksSubstitution s h a b d c e = elim (Bool-cases (c == b'`')) [
  | inl same ↦ ground arith
  | inr other ↦
      let found = ap has_substitution e ∙ has_substitution-found a b d c other in
      absurd (let k = (sym found ∙ h) in cc)
]

pattern-free : (s : Text) → matches_pattern s ≡ false → IsShellFree s
unfolding matches_pattern
pattern-free s h = (
  any_byte-plain s (ground arith) (ground arith),
  variable-LacksVariable s (ground arith),
  substitution-LacksSubstitution s (ground arith),
  keyword-LacksKeyword s (ground arith),
)

if_false : (a b : Bool) → (if a then true else b) ≡ false → a ≡ false
if_false a b h = ground arith

unwrapped :
    (s : Text) (b : Bool)
    → (if is_empty s then false else if matches_pattern s then true else b) ≡ false
    → IsShellFree s
unfolding matches_pattern any_byte has_variable has_substitution has_keyword
unwrapped [] b h = pattern-free [] refl
unwrapped (c ∷ s) b h = pattern-free (c ∷ s) (if_false _ b h)

-- A command that is not wrapped in a shell has, but for the white space around it, no byte of
-- `|&;()<>*?[]{}~`, no white space, no `$` before a letter, a digit or an underscore, no two backticks
-- with a text between them, and none of the words if, for, while, until, case, function, source,
-- alias, export, set and unset that stands alone. Quotes, backslashes and assignments are not
-- looked for.
pub needs_shell_wrapping-false :
    (cmd : Text) → needs_shell_wrapping cmd ≡ false → IsShellFree (trim_space cmd)
unfolding needs_shell_wrapping
needs_shell_wrapping-false cmd h = unwrapped (trim_space cmd) _ h
