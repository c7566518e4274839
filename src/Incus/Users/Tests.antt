-- ===== src/Incus/Users/Tests.antt =====
-- An instance with its users, and a command in it.
use ssh2incus.Base.{◌≡◌, refl, inr, false, none, [], ◌∷◌, All}
use ssh2incus.Base.Int.{pos, negsuc}
use ssh2incus.Base.Text.{codes, split, contains_byte}
use ssh2incus.Base.Dict.{Dict, lookup, delete}
use ssh2incus.Buffer.{scan_lines}
use ssh2incus.Base.Text.Cut.{Lacks, contains_byte-Lacks}
use ssh2incus.Incus.{ClientState}
use ssh2incus.Incus.Project.{IsSynced}
use ssh2incus.Incus.Tests.{server, new_client, named}
use ssh2incus.Incus.Exec.{InstanceExec, InstanceExecPost, Outcome, uint32, build_exec_request}
use ssh2incus.Incus.Users.{InstanceUser, Found, Exec, get_cached_instance_user}
use ssh2incus.Incus.Users.Entries.{fields}
use ssh2incus.Incus.Users.Cached.{IsName, Holds, Answers, get_cached_instance_user-Answers}

abbrev root : InstanceUser
root = record {
  project = codes "team";
  instance = codes "web";
  user = codes "root";
  uid = pos 0;
  gid = pos 0;
  dir = codes "/root";
  shell = codes "/bin/sh";
  ent = codes "root:x:0:0::/root:/bin/sh";
}

abbrev found : Outcome
found = record { ret = pos 0; error = none; stdout = codes "root:x:0:0::/root:/bin/sh\n" }

found_lines : scan_lines found.stdout ≡ root.ent ∷ []
unfolding scan_lines split
found_lines = refl

root-Lacks : All (Lacks b':') (fields root (codes "x") (codes "0") (codes "0") [])
unfolding contains_byte
root-Lacks =
    let lacks = contains_byte-Lacks b':' in
    (
      lacks (codes "root") refl,
      (
        lacks (codes "x") refl,
        (
          lacks (codes "0") refl,
          (
            lacks (codes "0") refl,
            (lacks [] refl, (lacks (codes "/root") refl, (lacks (codes "/bin/sh") refl, tt))),
          ),
        ),
      ),
    )

abbrev short : Outcome
short = record { ret = pos 0; error = none; stdout = codes "root:x:0\n" }

short_lines : scan_lines short.stdout ≡ codes "root:x:0" ∷ []
unfolding scan_lines split
short_lines = refl

abbrev exec : Exec
exec project instance cmd = found

team-IsName : IsName (codes "team")
unfolding contains_byte
team-IsName = contains_byte-Lacks b'/' (codes "team") refl

web-IsName : IsName (codes "web")
unfolding contains_byte
web-IsName = contains_byte-Lacks b'/' (codes "web") refl

empty-Holds : Holds server named exec []
unfolding lookup
empty-Holds p i u iu hp hi l = cc

abbrev asked : Found × ClientState × Dict InstanceUser
asked =
    get_cached_instance_user server exec (λ f. f) (codes "team") (codes "web") (codes "root")
      new_client []

get_cached_instance_user-Answers_example :
    Answers server named exec (codes "team") (codes "web") (codes "root") asked.0
    × IsSynced asked.1
    × Holds server named exec asked.2
    × Holds server named exec (delete (codes "team/web/root") asked.2)
get_cached_instance_user-Answers_example =
    get_cached_instance_user-Answers server named exec (λ f. f) (codes "team") (codes "web")
      (codes "root") (codes "team/web/root") new_client [] (λ f. refl) team-IsName web-IsName
      (inr refl) empty-Holds

abbrev command : InstanceExec
command = record {
  instance = codes "web";
  cmd = codes "id";
  env = [];
  is_pty = false;
  width = pos 0;
  height = pos 0;
  user = negsuc 0;
  group = pos 1000;
  cwd = [];
}

abbrev post : InstanceExecPost
post = build_exec_request (λ s. s ∷ []) command

-- The user -1 of a request is the largest user.
negative_user : post.user ≡ 4294967295
unfolding build_exec_request uint32
negative_user = refl
