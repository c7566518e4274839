-- ===== src/Incus/Files/Tests.antt =====
-- An instance that has one file with the given checksum.
use ssh2incus.Base.{◌≡◌, refl, true, none, [], if◌then◌else◌}
use ssh2incus.Base.Int.{pos}
use ssh2incus.Base.Text.{Text, codes, text_eq, split, contains_byte}
use ssh2incus.Base.Dict.{lookup}
use ssh2incus.Base.Text.Cut.{contains_byte-Lacks}
use ssh2incus.Buffer.{scan_lines}
use ssh2incus.Incus.{default_project}
use ssh2incus.Incus.Exec.{Outcome}
use ssh2incus.Incus.Users.{Exec}
use ssh2incus.Incus.Files.{FileExistsParams, cached, file_there, file_exists}
use ssh2incus.Incus.Files.Cached.{IsNamed, Holds, IsSound, file_exists-IsSound}

abbrev proxy : FileExistsParams
proxy = record {
  project = codes "team";
  instance = codes "web";
  path = codes "/tmp/stdio-proxy";
  md5sum = codes "d41d";
  should_cache = true;
}

abbrev answer : Text → Outcome
answer out = record { ret = pos 0; error = none; stdout = out }

abbrev exec : Exec
exec project instance cmd =
    if text_eq cmd (codes "md5sum /tmp/stdio-proxy")
    then answer (codes "d41d  /tmp/stdio-proxy\n")
    else answer []

empty-Holds : Holds exec []
unfolding lookup
empty-Holds p i path m b named l = cc

proxy-IsNamed : IsNamed proxy.project proxy.instance proxy.path proxy.md5sum
unfolding contains_byte
proxy-IsNamed = (
  contains_byte-Lacks b'/' (codes "team") refl,
  contains_byte-Lacks b'/' (codes "web") refl,
  contains_byte-Lacks b':' (codes "/tmp/stdio-proxy") refl,
  contains_byte-Lacks b':' (codes "d41d") refl,
)

file_exists-IsSound_example :
    IsSound exec proxy (file_exists exec (default_project proxy.project) proxy [])
file_exists-IsSound_example = file_exists-IsSound exec proxy [] proxy-IsNamed empty-Holds

there : (file_exists exec (codes "team") proxy []).0 ≡ true
unfolding file_exists cached lookup file_there text_eq scan_lines split
there = refl
