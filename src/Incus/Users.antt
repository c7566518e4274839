-- ===== src/Incus/Users.antt =====
-- pkg/incus/user.go: the users of an instance, from getent, with their cache.
pub mod Entries
pub mod Cached
mod Tests
use ssh2incus.Base.{not, Option, none, some, List, [], ◌∷◌, ◌++◌, ◌==◌, if◌then◌else◌}
use ssh2incus.Base.Int.{ℤ, pos, negsuc}
use ssh2incus.Base.Result.{Result, ok, err}
use ssh2incus.Base.Text.{Text, codes, split, atoi_value}
use ssh2incus.Base.Dict.{Dict, lookup, insert, delete}
use ssh2incus.Buffer.{scan_lines}
use ssh2incus.Incus.Exec.{Outcome}
use ssh2incus.Incus.{Server, ClientState, use_project, Call}

pub record InstanceUser : Type 0 where
  pub project : Text
  pub instance : Text
  pub user : Text
  pub uid : ℤ
  pub gid : ℤ
  pub dir : Text
  pub shell : Text
  pub ent : Text

-- An index out of range panics.
pub data Found : Type 0 where
  panic : Found
  result : Result InstanceUser → Found

unfoldable pub user_of_parts : Text → Text → Text → List Text → Found
unfolding atoi_value
user_of_parts project instance ent (user ∷ pass ∷ uid ∷ gid ∷ gecos ∷ dir ∷ shell ∷ more) = result (
    ok (record {
      project = project;
      instance = instance;
      user = user;
      uid = atoi_value uid;
      gid = atoi_value gid;
      dir = dir;
      shell = shell;
      ent = ent;
    }))
user_of_parts project instance ent parts = panic

abbrev pub first_entry : Text → Text → List Text → Found
first_entry project instance [] = result (err (codes "user not found"))
first_entry project instance (ent ∷ lines) = user_of_parts project instance ent (split b':' ent)

abbrev pub user_of_outcome : Text → Text → Outcome → Option Text → Found
user_of_outcome project instance o (some m) = result (err m)
user_of_outcome project instance o none = elim o.ret [
  | pos n ↦
      if n == 0
      then first_entry project instance (scan_lines o.stdout)
      else result (err (codes "user not found"))
  | negsuc n ↦ result (err (codes "user not found"))
]

abbrev pub getent : Text → Text
getent user = codes "getent passwd " ++ user

-- `exec` runs a command in an instance of a project as root, with no more than its name and command.
abbrev pub Exec : Type 0
Exec = Text → Text → Text → Outcome

abbrev pub ask_user :
    Exec → Text → Text → Text → Result (Unit {0}) × ClientState × List Call → Found × ClientState
ask_user exec project instance user (err m, st, cs) = (result (err m), st)
ask_user exec project instance user (ok u, st, cs) =
    let o = exec st.used instance (getent user) in (user_of_outcome project instance o o.error, st)

-- What EnqueueWithParam hands to the caller whose own job gave this. A queue with several callers may
-- hand out another caller's result, so that this is a parameter.
abbrev pub Receive : Type 0
Receive = Found → Found

unfoldable pub get_instance_user :
    Server → Exec → Receive → Text → Text → Text → ClientState → Found × ClientState
unfolding use_project user_of_parts scan_lines split
get_instance_user sv exec receive project instance user st =
    let (f, st') = ask_user exec project instance user (use_project sv project st) in
    (receive f, st')

unfoldable pub instance_user_key : Text → Text → Text → Text
instance_user_key project instance user = project ++ b'/' ∷ (instance ++ b'/' ∷ user)

abbrev pub keep :
    Text → Found × ClientState → Dict InstanceUser → Found × ClientState × Dict InstanceUser
keep k (result (ok iu), st) cache = (result (ok iu), st, insert k iu cache)
keep k (result (err m), st) cache = (result (err m), st, cache)
keep k (panic, st) cache = (panic, st, cache)

abbrev pub cached_or :
    Option InstanceUser
    → Text
    → Found × ClientState
    → ClientState
    → Dict InstanceUser
    → Found × ClientState × Dict InstanceUser
cached_or (some iu) k asked st cache = (result (ok iu), st, cache)
cached_or none k asked st cache = keep k asked cache

unfoldable pub get_cached_instance_user :
    Server
    → Exec
    → Receive
    → Text
    → Text
    → Text
    → ClientState
    → Dict InstanceUser
    → Found × ClientState × Dict InstanceUser
unfolding get_instance_user instance_user_key lookup insert
get_cached_instance_user sv exec receive project instance user st cache =
    let k = instance_user_key project instance user in
    cached_or (lookup k cache) k (get_instance_user sv exec receive project instance user st) st
      cache

unfoldable pub uncache_instance_user : Text → Text → Text → Dict InstanceUser → Dict InstanceUser
unfolding instance_user_key delete
uncache_instance_user project instance user cache =
    delete (instance_user_key project instance user) cache
