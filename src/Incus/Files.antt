-- ===== src/Incus/Files.antt =====
-- pkg/incus/file.go: FileExists and CommandExists with the cache that they share. The queue runs one
-- of them at a time; `exec` runs a command in an instance, as in the lookup of users.
pub mod Cached
mod Tests
use ssh2incus.Base.{
  Bool, true, false, ◌&&◌, ◌||◌, Option, none, some, List, [], ◌∷◌, ◌++◌, ◌==◌, if◌then◌else◌,
}
use ssh2incus.Base.Int.{ℤ, pos, negsuc}
use ssh2incus.Base.Text.{Text, codes, text_eq, is_empty, split}
use ssh2incus.Base.Dict.{Dict, lookup, insert}
use ssh2incus.Buffer.{scan_lines}
use ssh2incus.Incus.Users.{Exec}

pub record FileExistsParams : Type 0 where
  pub project : Text
  pub instance : Text
  pub path : Text
  pub md5sum : Text
  pub should_cache : Bool

pub record CommandExistsParams : Type 0 where
  pub project : Text
  pub instance : Text
  pub path : Text
  pub should_cache : Bool

unfoldable pub file_hash : Text → Text → Text → Text → Text
file_hash project instance path md5sum =
    project ++ b'/' ∷ (instance ++ b'/' ∷ (path ++ b':' ∷ md5sum))

abbrev pub is_zero : ℤ → Bool
is_zero (pos n) = n == 0
is_zero (negsuc n) = false

-- The first word of the line, where there are two.
abbrev pub is_sum : Text → List Text → Bool
is_sum md5sum [] = false
is_sum md5sum (m ∷ []) = false
is_sum md5sum (m ∷ n ∷ more) = text_eq md5sum m

abbrev pub first_sum : Text → List Text → Bool
first_sum md5sum [] = false
first_sum md5sum (l ∷ ls) = is_sum md5sum (split b' ' l)

abbrev pub test_cmd : Text → Text
test_cmd path = codes "test -f " ++ path

abbrev pub md5_cmd : Text → Text
md5_cmd path = codes "md5sum " ++ path

-- Both commands write to the same buffer. `used` is the project of the client.
unfoldable pub file_there : Exec → Text → FileExistsParams → Bool
unfolding text_eq scan_lines split
file_there exec used p =
    let tested = exec used p.instance (test_cmd p.path) in
    let summed = exec used p.instance (md5_cmd p.path) in
    is_zero tested.ret
    && (is_empty p.md5sum
        || (is_zero summed.ret && first_sum p.md5sum (scan_lines (tested.stdout ++ summed.stdout))))

-- What is not there is not cached.
abbrev pub remember : Bool → Text → Bool → Dict Bool → Bool × Dict Bool
remember should_cache hash there cache =
    (there, if should_cache && there then insert hash true cache else cache)

abbrev pub cached_or : Option Bool → Bool × Dict Bool → Dict Bool → Bool × Dict Bool
cached_or none asked cache = asked
cached_or (some b) asked cache = (b, cache)

unfoldable pub cached : Bool → Text → Dict Bool → Option Bool
unfolding lookup
cached should_cache hash cache = if should_cache then lookup hash cache else none

unfoldable pub file_exists : Exec → Text → FileExistsParams → Dict Bool → Bool × Dict Bool
unfolding file_hash file_there cached insert
file_exists exec used p cache =
    let hash = file_hash p.project p.instance p.path p.md5sum in
    cached_or (cached p.should_cache hash cache)
      (remember p.should_cache hash (file_there exec used p) cache) cache

unfoldable pub command_exists : Exec → Text → CommandExistsParams → Dict Bool → Bool × Dict Bool
unfolding file_hash cached insert
command_exists exec used p cache =
    let hash = file_hash p.project p.instance p.path [] in
    cached_or (cached p.should_cache hash cache)
      (remember p.should_cache hash
        (is_zero (exec used p.instance (codes "sh -c \"command -v " ++ (p.path ++ codes "\""))).ret)
        cache)
      cache
