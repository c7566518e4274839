-- ===== src/Auth.antt =====
-- server/auth.go and the host side of server/user.go: who may log in. The host's user database, the
-- files, the Incus client, the key parser and the hashes are parameters. Logging is left out.
pub mod Handlers
pub mod Keys
pub mod Host
pub mod Password
pub mod Instance
pub mod Setup
pub mod Tests
use ssh2incus.Base.{
  Bool, false, not, ◌&&◌, ◌||◌, Option, none, some, List, [], ◌∷◌, ◌++◌, ltb, if◌then◌else◌, length,
}
use ssh2incus.Base.Result.{Result, ok, err, ◌>>=◌}
use ssh2incus.Base.Text.{Text, codes, text_eq}
use ssh2incus.LoginUser.{Login}
use ssh2incus.LoginUser.Valid.{KeyCache, Caches, Client, InstanceUser}
use ssh2incus.Shadow.{Files}
use ssh2incus.Shadow.Password.{Hashes}
use ssh2incus.Buffer.{BytesBuffer, new_bytes_buffer, write_all, close, LongScan, scan}

-- pkg/user, User
pub record HostUser : Type 0 where
  pub username : Text
  pub uid : Text
  pub home_dir : Text

pub record World : Type 0 where
  -- pkg/user: Lookup, (*User).GroupIds, LookupGroupId, LookupGroup
  pub lookup_user : Text → Result HostUser
  pub group_ids : HostUser → Result (List Text)
  pub lookup_group_id : Text → Result Text
  pub lookup_group : Text → Result Text
  -- os.Open(filepath.Clean(path)): the bytes of a file of keys
  pub open_clean : Text → Result Text
  -- ssh.ParseAuthorizedKey and ssh.KeysEqual, on keys in wire form
  pub parse_authorized_key : Text → Result Text
  -- io.CopyN from the file that Incus sends: the chunks, or an error
  pub instance_file : Text → Text → Text → Result (List Text)
  pub client : Client
  -- Where that client stands when it is asked for a file. GetCachedInstanceUser puts it in the login's
  -- project, unless it finds the user in its cache.
  pub client_project : Text
  -- bufio.Scanner on a text of more than 2048 bytes
  pub long : LongScan
  pub files : Files
  pub hashes : Hashes

-- The fields of config that the handlers read.
pub record Config : Type 0 where
  pub allowed_groups : List Text
  pub instance_auth : Bool

-- The caches of logins, and the key that the session's login user keeps.
pub record AuthState (k : KeyCache) : Type 0 where
  pub caches : Caches k
  pub public_key : Option Text

abbrev member_of : Text → List Text → Bool
member_of a [] = false
member_of a (b ∷ bs) = text_eq a b || member_of a bs

-- The first of `a` that is in `b`; `none` is ("", false).
unfoldable pub group_match : List Text → List Text → Option Text
group_match [] bs = none
group_match (a ∷ others) bs =
    let rest = group_match others bs in if member_of a bs then some a else rest

unfoldable pub get_group_ids : World → List Text → List Text
get_group_ids w [] = []
get_group_ids w (g ∷ gs) = elim (w.lookup_group g) [
  | ok gid ↦ gid ∷ get_group_ids w gs
  | err m ↦ get_group_ids w gs
]

abbrev checked_match : World → HostUser → Option Text → Result HostUser
checked_match w u none = err (codes "no group match")
checked_match w u (some gid) = do group ← w.lookup_group_id gid; ok u

unfoldable pub check_groups : World → Config → HostUser → Result HostUser
unfolding group_match
check_groups w config u =
    if not (text_eq u.uid (codes "0")) && ltb 0 (length config.allowed_groups)
    then (w.group_ids u >>= λ groups. checked_match w u (group_match config.allowed_groups groups))
    else ok u

unfoldable pub check_host_user : World → Config → Login → Result HostUser
unfolding check_groups
check_host_user w config lu = w.lookup_user lu.user >>= check_groups w config

abbrev key_paths : HostUser → List Text
key_paths u =
    (u.home_dir ++ codes "/.ssh/authorized_keys")
    ∷ (codes "/etc/ssh/authorized_keys.d/" ++ u.username)
    ∷ []

abbrev pub no_keys : Option Text → Result (List Text)
no_keys none = ok []
no_keys (some last_error) = err last_error

-- The loop over the paths: `keys` is empty whenever a turn begins. The keys are slices of the scanner's
-- buffer, as they are when it has ended; an error of the scanner is not looked at.
unfoldable pub read_keys : World → List Text → Option Text → Result (List Text)
unfolding scan
read_keys w [] last_error = no_keys last_error
read_keys w (path ∷ paths) last_error = elim (w.open_clean path) [
  | err m ↦ read_keys w paths (some m)
  | ok content ↦
      let rest = read_keys w paths last_error in
      elim (scan w.long content).0 [ [] ↦ rest | key ∷ keys ↦ ok (key ∷ keys) ]
]

unfoldable pub get_user_auth_keys : World → HostUser → Result (List Text)
unfolding read_keys
get_user_auth_keys w u = read_keys w (key_paths u) none

unfoldable pub keys_equal : World → Text → Text → Result Bool
keys_equal w key auth_key = do pkey ← w.parse_authorized_key auth_key; ok (text_eq pkey key)

-- err != nil goes on to the next key.
abbrev pub is_equal : Result Bool → Bool
is_equal (ok b) = b
is_equal (err m) = false

-- DownloadFile: the project that it is given is not used, and the file is that of the instance of this
-- name in the client's own project. The buffer is closed when the function returns.
unfoldable pub download_file : World → Text → Text → Text → Result BytesBuffer
unfolding write_all close
download_file w project name path = do
  chunks ← w.instance_file w.client_project name path
  ok (close (write_all chunks (new_bytes_buffer w.long)))

abbrev pub nil_is_error : Option InstanceUser → Result InstanceUser
nil_is_error none = err (codes "not found instance user")
nil_is_error (some iu) = ok iu

-- NewDefaultIncusClientWithContext and GetCachedInstanceUser
abbrev pub instance_user_of : World → Login → Result InstanceUser
instance_user_of w lu = do
  connected ← w.client.connect
  found ← w.client.get_cached_instance_user lu.project lu.instance_name lu.instance_user
  nil_is_error found
