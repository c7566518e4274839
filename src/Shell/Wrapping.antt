-- ===== src/Shell/Wrapping.antt =====
-- server/shell.go, needsShellWrapping: which commands go through a shell. The regular expressions are
-- read off as tests on bytes. Of the pattern of `$`, the alternatives with a brace or a parenthesis
-- are met by the patterns above it.
use ssh2incus.Base.{
  ℕ, Bool, true, false, not, ◌&&◌, ◌||◌, Option, none, some, List, [], ◌∷◌, leb, ◌==◌,
  if◌then◌else◌,
}
use ssh2incus.Base.Text.{Text, codes, is_empty, cut_prefix, contains}
use ssh2incus.Base.Text.Space.{trim_space}

unfoldable pub any_byte : (ℕ → Bool) → Text → Bool
any_byte p [] = false
any_byte p (c ∷ s) = p c || any_byte p s

-- [|&;()<>\s]
abbrev pub is_shell_byte : ℕ → Bool
is_shell_byte c =
    (c == b'|')
    || (c == b'&')
    || (c == b';')
    || (c == b'(')
    || (c == b')')
    || (c == b'<')
    || (c == b'>')
    || (c == 32)
    || (c == 9)
    || (c == 10)
    || (c == 12)
    || (c == 13)

-- [*?[\]{}~]
abbrev pub is_glob_byte : ℕ → Bool
is_glob_byte c =
    (c == b'*')
    || (c == b'?')
    || (c == b'[')
    || (c == b']')
    || (c == b'{')
    || (c == b'}')
    || (c == b'~')

-- \w
abbrev pub is_word_byte : ℕ → Bool
is_word_byte c =
    (leb b'a' c && leb c b'z')
    || (leb b'A' c && leb c b'Z')
    || (leb b'0' c && leb c b'9')
    || (c == b'_')

abbrev pub begins_word : Text → Bool
begins_word [] = false
begins_word (c ∷ s) = is_word_byte c

-- \$\w+
unfoldable pub has_variable : Text → Bool
has_variable [] = false
has_variable (c ∷ s) = ((c == b'$') && begins_word s) || has_variable s

-- `[^`]+`: a backtick, other bytes, at least one, and a backtick.
unfoldable pub closes : Text → Bool
closes [] = false
closes (c ∷ s) = (c == b'`') || closes s

abbrev pub opens : Text → Bool
opens [] = false
opens (c ∷ s) = not (c == b'`') && closes s

unfoldable pub has_substitution : Text → Bool
unfolding closes
has_substitution [] = false
has_substitution (c ∷ s) = ((c == b'`') && opens s) || has_substitution s

-- \b(?:…)\b: a keyword with no word byte before it and none behind it.
abbrev pub ends_here : Option Text → Bool
ends_here none = false
ends_here (some s) = not (begins_word s)

unfoldable pub begins_keyword : Text → Bool
unfolding cut_prefix
begins_keyword s =
    ends_here (cut_prefix (codes "if") s)
    || ends_here (cut_prefix (codes "for") s)
    || ends_here (cut_prefix (codes "while") s)
    || ends_here (cut_prefix (codes "until") s)
    || ends_here (cut_prefix (codes "case") s)
    || ends_here (cut_prefix (codes "function") s)
    || ends_here (cut_prefix (codes "source") s)
    || ends_here (cut_prefix (codes "alias") s)
    || ends_here (cut_prefix (codes "export") s)
    || ends_here (cut_prefix (codes "set") s)
    || ends_here (cut_prefix (codes "unset") s)

-- `inside` tells whether the byte before is a word byte.
unfoldable pub has_keyword : Bool → Text → Bool
unfolding begins_keyword
has_keyword inside [] = false
has_keyword inside (c ∷ s) =
    (not inside && begins_keyword (c ∷ s)) || has_keyword (is_word_byte c) s

unfoldable pub contains_any : List Text → Text → Bool
unfolding contains
contains_any [] s = false
contains_any (op ∷ ops) s = contains op s || contains_any ops s

abbrev pub redirect_ops : List Text
redirect_ops =
    codes " > " ∷ codes " >> " ∷ codes " < " ∷ codes " << " ∷ codes " 2> " ∷ codes " 2>> " ∷ []

abbrev pub command_ops : List Text
command_ops = codes " && " ∷ codes " || " ∷ codes " ; " ∷ []

unfoldable pub matches_pattern : Text → Bool
unfolding any_byte has_variable has_substitution has_keyword
matches_pattern cmd =
    any_byte is_shell_byte cmd
    || any_byte is_glob_byte cmd
    || has_variable cmd
    || has_substitution cmd
    || has_keyword false cmd

unfoldable pub needs_shell_wrapping : Text → Bool
unfolding trim_space matches_pattern contains_any
needs_shell_wrapping command =
    let cmd = trim_space command in
    if is_empty cmd
    then false
    else if matches_pattern cmd
    then true
    else contains_any redirect_ops cmd || contains_any command_ops cmd
