-- ===== src/Auth/Tests.antt =====
-- A host, an instance and keys that the theorems on authentication apply to.
use ssh2incus.Base.{◌≡◌, refl, ◌⊎◌, inl, inr, true, false, none, some, List, [], ◌∷◌, if◌then◌else◌}
use ssh2incus.Base.Result.{ok, err}
use ssh2incus.Base.Text.{Text, codes, text_eq, is_empty, split}
use ssh2incus.LoginUser.{Login, zero_login, is_command}
use ssh2incus.LoginUser.Valid.{check_login}
use ssh2incus.LoginUser.Tests.{set_cache, empty_caches, bob_client, bob_login}
use ssh2incus.Auth.Keys.{AreKeys}
use ssh2incus.Buffer.{scan_lines, scan}
use ssh2incus.Shadow.Password.{check_host_shadow_password}
use ssh2incus.Shadow.Tests.{any_hashes}
use ssh2incus.Auth.{
  World, Config, AuthState, HostUser, check_host_user, group_match, get_group_ids, member_of,
}
use ssh2incus.Auth.Handlers.{host_auth_handler, instance_auth_handler, password_handler}
use ssh2incus.Auth.Host.{IsAllowed, HostAccepts, host_auth_handler_iff}
use ssh2incus.Auth.Instance.{AreShort, IsValidLogin, InstanceAccepts, instance_auth_handler_only}
use ssh2incus.Auth.Password.{password_handler_iff}
use ssh2incus.Auth.Setup.{Settings, setup_server, resolved_groups, IsNamed, setup_server-IsAllowed}
use ssh2incus.Base.{arith}

abbrev carl : HostUser
carl = record { username = codes "carl"; uid = codes "1001"; home_dir = codes "/home/carl" }

-- No file but the one without a path can be opened, and it has no lines.
abbrev pub world : World
world = record {
  lookup_user = λ name. ok carl;
  group_ids = λ u. ok (codes "27" ∷ []);
  lookup_group_id = λ gid. ok (codes "sudo");
  lookup_group = λ name. ok (codes "27");
  open_clean = λ path. ok (codes "key\n");
  parse_authorized_key = λ line. ok line;
  instance_file = λ p i path. ok (codes "key\n" ∷ []);
  client = bob_client;
  client_project = codes "default";
  long = λ s. ([], s);
  files = λ path.
      if is_empty path
      then err (codes "no such file")
      else ok (record { lines = []; scan_error = none });
  hashes = any_hashes;
}

abbrev config : Config
config = record { allowed_groups = codes "27" ∷ []; instance_auth = true }

abbrev state : AuthState set_cache
state = record { caches = empty_caches; public_key = none }

carl_keys : AreKeys world carl (codes "key" ∷ [])
unfolding scan scan_lines split
carl_keys = inl (codes "key\n", refl, refl, λ e. cc)

carl_group : group_match config.allowed_groups (codes "27" ∷ []) ≡ some (codes "27")
unfolding group_match text_eq
carl_group = refl

bob_valid : (check_login set_cache bob_client bob_login empty_caches).0 ≡ true
unfolding check_login
bob_valid = refl

abbrev HostAcceptsBob : Type 0
HostAcceptsBob = HostAccepts set_cache world config bob_login (codes "key")

carl_accepted : HostAcceptsBob
carl_accepted = (
  carl,
  codes "key" ∷ [],
  refl,
  inr (inr (codes "27" ∷ [], codes "27", codes "sudo", refl, carl_group, refl)),
  carl_keys,
  inl refl,
)

host_auth_handler_iff_example :
    (host_auth_handler set_cache world config bob_login (codes "key") state).0 ≡ true
host_auth_handler_iff_example =
    (host_auth_handler_iff set_cache world config bob_login (codes "key") state).1
      (carl_accepted, bob_valid)

bob_accepted : (instance_auth_handler set_cache world config bob_login (codes "key") state).0 ≡ true
unfolding instance_auth_handler
bob_accepted = rw host_auth_handler_iff_example

abbrev carl_entry_world : World
carl_entry_world = record world {
  files = λ path.
      if is_empty path
      then err (codes "no such file")
      else ok (record { lines = codes "carl:$6$x:::::::" ∷ []; scan_error = none });
}

world-short : AreShort set_cache world config bob_login
world-short p i path chunks h =
    let same : codes "key\n" ∷ [] ≡ chunks = cc in rw (← same) (omega arith)

carl_entry_world-short : AreShort set_cache carl_entry_world config bob_login
carl_entry_world-short p i path chunks h = world-short p i path chunks h

instance_auth_handler_only_example :
    (HostAcceptsBob × IsValidLogin set_cache world config bob_login state)
    ⊎ (IsValidLogin set_cache world config bob_login
          (host_auth_handler set_cache world config bob_login (codes "key") state).1
        × (is_command bob_login ≡ false)
        × InstanceAccepts set_cache world config bob_login (codes "key"))
instance_auth_handler_only_example =
    instance_auth_handler_only set_cache world config bob_login (codes "key") state world-short
      bob_accepted

abbrev shell_login : Login
shell_login = record zero_login { user = codes "carl"; command = codes "shell" }

carl_password :
    check_host_shadow_password carl_entry_world.files any_hashes (codes "carl") (codes "secret")
    ≡ ok tt
unfolding check_host_shadow_password split text_eq
carl_password = refl

carl_known : check_host_user carl_entry_world config bob_login ≡ ok carl
unfolding check_host_user text_eq
carl_known = refl

password_handler_iff_example :
    (password_handler set_cache carl_entry_world config bob_login (codes "secret") state).0 ≡ true
password_handler_iff_example =
    (password_handler_iff set_cache carl_entry_world config bob_login (codes "no such file") refl
        carl_entry_world-short (codes "secret") state).1
      (carl, carl_known, carl_password)

abbrev settings : Settings
settings = record {
  no_auth = false;
  instance_auth = true;
  pass_auth = false;
  auth_methods = [];
  allowed_groups = codes "sudo" ∷ [];
}

setup-IsAllowed : IsAllowed world (setup_server world settings).config carl
unfolding setup_server resolved_groups get_group_ids group_match text_eq
setup-IsAllowed = inr (inr (codes "27" ∷ [], codes "27", codes "sudo", refl, refl, refl))

setup_server-IsAllowed_example :
    (carl.uid ≡ codes "0")
    ⊎ ((groups : List Text) × (gid : Text) × (world.group_ids carl ≡ ok groups)
        × (member_of gid groups ≡ true)
        × ((gid ≡ codes "0") ⊎ IsNamed world settings.allowed_groups gid))
setup_server-IsAllowed_example =
    setup_server-IsAllowed world settings carl refl (λ e. cc) setup-IsAllowed
