-- ===== src/Incus/OsInfo.antt =====
-- pkg/incus/system-package.go: the operating system of an instance, and the installation of packages.
pub mod Release
mod Tests
use ssh2incus.Base.{
  ℕ, Bool, false, ◌&&◌, ◌||◌, Option, none, some, List, [], ◌∷◌, ◌++◌, ◌==◌, if◌then◌else◌,
}
use ssh2incus.Base.Int.{pos, negsuc}
use ssh2incus.Base.Result.{Result, ok, err, ◌>>=◌}
use ssh2incus.Base.Text.{
  Text, codes, text_eq, is_empty, starts_with_byte, or_else, cut, split, join, replace_all,
}
use ssh2incus.Base.Text.Space.{trim_space, to_lower}
use ssh2incus.Base.Dict.{Dict, lookup, insert}
use ssh2incus.Base.Text.Numbers.{show_int}
use ssh2incus.Buffer.{BytesBuffer, get_lines}
use ssh2incus.Incus.Exec.{Outcome}

-- strings.Trim for a set of one byte.
unfoldable pub trim_left : ℕ → Text → Text
trim_left b [] = []
trim_left b (c ∷ s) = let rest = trim_left b s in if c == b then rest else c ∷ s

unfoldable pub trim_right : ℕ → Text → Text
trim_right b [] = []
trim_right b (c ∷ s) =
    let rest = trim_right b s in if (c == b) && is_empty rest then [] else c ∷ rest

unfoldable pub trim_byte : ℕ → Text → Text
unfolding trim_left trim_right
trim_byte b s = trim_right b (trim_left b s)

-- A line of an os-release file: a comment or nothing, a pair, or a line without `=`, which ends the reading.
pub data Line : Type 0 where
  skipped : Line
  pair : (key value : Text) → Line
  broken : Line

abbrev pub pair_of : Option (Text × Text) → Line
pair_of none = broken
pair_of (some (k, v)) = pair (trim_space k) (trim_byte b'"' v)

unfoldable pub line_of : Text → Line
unfolding trim_space trim_byte cut
line_of l =
    let t = trim_space l in
    if starts_with_byte b'#' t || is_empty t then skipped else pair_of (cut b'=' t)

abbrev pub add_line : Line → (Dict Text → Dict Text) → Dict Text → Dict Text
add_line skipped rest info = rest info
add_line broken rest info = info
add_line (pair k v) rest info = rest (insert k v info)

unfoldable pub read_lines : List Text → Dict Text → Dict Text
unfolding line_of insert
read_lines [] info = info
read_lines (l ∷ ls) info = add_line (line_of l) (read_lines ls) info

-- The answers of DownloadFile, which asks for the instance in the client's own project.
abbrev pub Files : Type 0
Files = Text → Result BytesBuffer

abbrev pub or_file : Result BytesBuffer → Result BytesBuffer → Result BytesBuffer
or_file (ok f) next = ok f
or_file (err m) next = next

abbrev pub info_of : Result BytesBuffer → Dict Text
info_of (err m) = []
info_of (ok f) = read_lines (get_lines f).0 []

unfoldable pub get_os_info : Files → Dict Text
unfolding read_lines get_lines
get_os_info files =
    info_of (or_file (files (codes "/usr/lib/os-release")) (files (codes "/etc/os-release")))

pub data Family : Type 0 where
  rhel : Family
  debian : Family
  alpine : Family

abbrev pub is_one_of : Text → List Text → Bool
is_one_of s [] = false
is_one_of s (t ∷ ts) = text_eq s t || is_one_of s ts

unfoldable pub family_of_id : Text → Option Family
unfolding text_eq
family_of_id id =
    if is_one_of id (codes "centos" ∷ codes "rhel" ∷ codes "fedora" ∷ [])
    then some rhel
    else if is_one_of id (codes "debian" ∷ codes "ubuntu" ∷ [])
    then some debian
    else if text_eq id (codes "alpine")
    then some alpine
    else none

unfoldable pub family_of_like : Text → Option Family
unfolding text_eq
family_of_like entry =
    if is_one_of entry (codes "fedora" ∷ codes "rhel" ∷ [])
    then some rhel
    else if text_eq entry (codes "debian")
    then some debian
    else none

abbrev pub first_some : Option Family → Option Family → Option Family
first_some (some f) next = some f
first_some none next = next

-- The first entry that is known. An empty field has no entry that is.
unfoldable pub family_of_likes : List Text → Option Family
unfolding family_of_like
family_of_likes [] = none
family_of_likes (e ∷ es) = first_some (family_of_like e) (family_of_likes es)

abbrev pub known : Option Family → Result Family
known (some f) = ok f
known none = err (codes "unsupported or unknown OS")

abbrev pub value : Text → Dict Text → Text
value k info = or_else (lookup k info) []

unfoldable pub detect_os : Dict Text → Result Family
unfolding lookup family_of_id family_of_likes split
detect_os info = known (
    first_some (family_of_id (value (codes "ID") info))
      (family_of_likes (split b' ' (value (codes "ID_LIKE") info))))

abbrev pub first_word : Option Text → Result Text
first_word none = err (codes "unknown OS")
first_word (some like) = elim (cut b' ' like) [ none ↦ err (codes "unknown OS") | some p ↦ ok p.0 ]

abbrev pub or_result : Option Text → Result Text → Result Text
or_result (some s) next = ok s
or_result none next = next

unfoldable pub guess_os_name : Dict Text → Result Text
unfolding lookup cut
guess_os_name info =
    or_result (lookup (codes "NAME") info)
      (or_result (lookup (codes "ID") info) (first_word (lookup (codes "ID_LIKE") info)))

unfoldable pub get_os : Dict Text → Result Text
unfolding guess_os_name replace_all
get_os info = guess_os_name info >>= λ name. ok (replace_all (codes " ") [] name)

unfoldable pub get_os_slug : Dict Text → Result Text
unfolding get_os to_lower
get_os_slug info = get_os info >>= λ name. ok (to_lower name)

unfoldable pub install_cmd : Family → Text → Text
install_cmd rhel pkgs = codes "/bin/sh -c 'dnf install -y " ++ (pkgs ++ codes "'")
install_cmd debian pkgs =
    codes "/bin/sh -c 'apt-get update && apt-get install -y " ++ (pkgs ++ codes " 2>/dev/null'")
install_cmd alpine pkgs = codes "/bin/sh -c 'apk add --no-cache " ++ (pkgs ++ codes "'")

abbrev pub installed : Outcome → Option Text → Result (Unit {0})
installed o (some m) = err (codes "package installation failed with error: " ++ m)
installed o none = elim o.ret [
  | pos n ↦
      if n == 0
      then ok tt
      else err (codes "package installation failed with non-zero exit code: " ++ show_int (pos n))
  | negsuc n ↦
      err (codes "package installation failed with non-zero exit code: " ++ show_int (negsuc n))
]

abbrev pub install_for : (Text → Outcome) → Text → Result Family → Result (Unit {0}) × List Text
install_for exec pkgs (err m) = (err (codes "failed to detect OS: " ++ m), [])
install_for exec pkgs (ok f) =
    let cmd = install_cmd f pkgs in (installed (exec cmd) (exec cmd).error, cmd ∷ [])

-- `exec` runs a command in the instance, without a user or an environment; the commands that are run
-- stand beside the result.
unfoldable pub install_packages :
    Files → (Text → Outcome) → List Text → Result (Unit {0}) × List Text
unfolding get_os_info detect_os install_cmd join show_int
install_packages files exec packages =
    install_for exec (join (codes " ") packages) (detect_os (get_os_info files))
