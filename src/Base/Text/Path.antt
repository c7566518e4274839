-- ===== src/Base/Text/Path.antt =====
-- Slash-separated paths: filepath.IsAbs, Clean, Join and Dir on Unix.
use mathlib.Core.Path.{◌≡◌, refl}
use mathlib.Core.Bool.{Bool, true, false, ◌||◌}
use mathlib.Core.List.{List, [], ◌∷◌, reverse}
use ssh2incus.Base.Tests.{if◌then◌else◌}
use ssh2incus.Base.Text.{
  Text, codes, text_eq, is_empty, starts_with_byte, split, join, contains_byte,
}

abbrev pub is_abs : Text → Bool
is_abs s = starts_with_byte b'/' s

-- The elements of a cleaned path, in reverse. `..` above the root is dropped.
abbrev pub add_parent : Bool → List Text → List Text
add_parent true [] = []
add_parent false [] = codes ".." ∷ []
add_parent rooted (e ∷ es) = if text_eq e (codes "..") then codes ".." ∷ (e ∷ es) else es

unfoldable pub add_element : Bool → Text → List Text → List Text
unfolding text_eq
add_element rooted e es =
    if is_empty e || text_eq e (codes ".")
    then es
    else if text_eq e (codes "..")
    then add_parent rooted es
    else e ∷ es

unfoldable pub add_elements : Bool → List Text → List Text → List Text
unfolding add_element
add_elements rooted [] es = es
add_elements rooted (x ∷ xs) es = add_elements rooted xs (add_element rooted x es)

abbrev pub or_dot : Text → Text
or_dot [] = codes "."
or_dot (c ∷ s) = c ∷ s

unfoldable pub clean : Text → Text
unfolding add_elements split join
clean s =
    let elements = join (codes "/") (reverse (add_elements (is_abs s) (split b'/' s) [])) in
    if is_abs s then b'/' ∷ elements else or_dot elements

-- filepath.Join; the empty elements before the first other one are skipped.
unfoldable pub join_path : List Text → Text
unfolding clean join
join_path [] = []
join_path (e ∷ es) =
    let rest = join_path es in if is_empty e then rest else clean (join (codes "/") (e ∷ es))

-- The text up to its last slash, the slash included.
unfoldable pub up_to_slash : Text → Text
unfolding contains_byte
up_to_slash [] = []
up_to_slash (c ∷ s) =
    let rest = up_to_slash s in if contains_byte b'/' (c ∷ s) then c ∷ rest else []

-- filepath.Dir
unfoldable pub dir_path : Text → Text
unfolding clean up_to_slash
dir_path s = clean (up_to_slash s)

cleaned : clean (codes "/a/./b//../c/") ≡ codes "/a/c"
unfolding clean add_elements add_element text_eq split join
cleaned = refl

above : clean (codes "../../a/..") ≡ codes "../.."
unfolding clean add_elements add_element text_eq split join
above = refl

dir_of_name : dir_path (codes "create-config.yaml") ≡ codes "."
unfolding dir_path up_to_slash clean add_elements add_element text_eq split join
dir_of_name = refl

dir_of_file : dir_path (codes "/etc/ssh2incus/create-config.yaml") ≡ codes "/etc/ssh2incus"
unfolding dir_path up_to_slash clean add_elements add_element text_eq split join
dir_of_file = refl

joined : join_path (codes "/root" ∷ codes "./" ∷ codes "x.yaml" ∷ []) ≡ codes "/root/x.yaml"
unfolding join_path clean add_elements add_element text_eq split join
joined = refl
