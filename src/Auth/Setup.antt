-- ===== src/Auth/Setup.antt =====
-- server/server.go, setupServer: which handlers the server gets, and the groups that it allows.
use ssh2incus.Base.{
  ◌≡◌, ◌≢◌, refl, ◌⊎◌, inl, inr, Bool, true, false, not, ◌&&◌, ◌||◌, some, List, [], ◌∷◌, ltb,
  if◌then◌else◌, length, arith,
}
use ssh2incus.Base.Result.{ok, Result-cases}
use ssh2incus.Base.Text.{Text, codes, text_eq}
use ssh2incus.Base.Text.Laws.{text_eq_iff}
use ssh2incus.LoginUser.{Login}
use ssh2incus.LoginUser.Valid.{KeyCache}
use ssh2incus.Auth.Handlers.{instance_auth_handler, no_auth_handler, host_auth_handler}
use ssh2incus.Auth.{AuthState, World, Config, HostUser, get_group_ids, member_of, group_match}
use ssh2incus.Auth.Host.{IsAllowed, group_match_iff}

-- The fields of config that setupServer reads for authentication.
pub record Settings : Type 0 where
  pub no_auth : Bool
  pub instance_auth : Bool
  pub pass_auth : Bool
  pub auth_methods : List Text
  pub allowed_groups : List Text

pub data PublicKeyHandler : Type 0 where
  by_instance : PublicKeyHandler
  by_nobody : PublicKeyHandler
  by_host : PublicKeyHandler

-- The function that the handler's name stands for.
abbrev pub handle_key :
    PublicKeyHandler
    → (k : KeyCache) → World
    → Config
    → Login
    → Text
    → AuthState k
    → Bool × AuthState k
handle_key by_instance k w config lu key st = instance_auth_handler k w config lu key st
handle_key by_nobody k w config lu key st = no_auth_handler k w config lu key st
handle_key by_host k w config lu key st = host_auth_handler k w config lu key st

pub record Server : Type 0 where
  pub public_key_handler : PublicKeyHandler
  pub auth_methods : List Text
  pub has_password_handler : Bool
  pub config : Config

unfoldable pub resolved_groups : World → Settings → List Text
unfolding get_group_ids
resolved_groups w s =
    if not s.no_auth && ltb 0 (length s.allowed_groups)
    then codes "0" ∷ get_group_ids w s.allowed_groups
    else s.allowed_groups

unfoldable pub setup_server : World → Settings → Server
unfolding resolved_groups
setup_server w s = record {
  public_key_handler =
      if s.instance_auth then by_instance else if s.no_auth then by_nobody else by_host;
  auth_methods = s.auth_methods;
  has_password_handler = ltb 0 (length s.auth_methods) || (s.pass_auth && not s.no_auth);
  config = record { allowed_groups = resolved_groups w s; instance_auth = s.instance_auth };
}

-- A name of the list whose group the host knows under this id.
abbrev pub IsNamed : World → List Text → Text → Type 0
IsNamed w [] gid = ⊥
IsNamed w (name ∷ names) gid = (w.lookup_group name ≡ ok gid) ⊎ IsNamed w names gid

get_group_ids-IsNamed :
    (w : World) (names : List Text) (gid : Text)
    → member_of gid (get_group_ids w names) ≡ true
    → IsNamed w names gid
unfolding get_group_ids
get_group_ids-IsNamed w [] gid h = cc
get_group_ids-IsNamed w (name ∷ names) gid h = elim (Result-cases (w.lookup_group name)) [
  | inl (found, e) ↦
      let h' : (text_eq gid found || member_of gid (get_group_ids w names)) ≡ true = ground arith in
      ground (arith, text_eq_iff gid found, get_group_ids-IsNamed w names gid)
  | inr (m, e) ↦ inr (get_group_ids-IsNamed w names gid (ground arith))
]

resolved :
    (w : World) (s : Settings)
    → s.no_auth ≡ false
    → s.allowed_groups ≢ []
    → resolved_groups w s ≡ codes "0" ∷ get_group_ids w s.allowed_groups
unfolding resolved_groups
resolved w s auth some_group = at_least_one s.allowed_groups some_group
  where
    at_least_one :
        (gs : List Text)
        → gs ≢ []
        → (if not s.no_auth && ltb 0 (length gs) then codes "0" ∷ get_group_ids w gs else gs)
          ≡ codes "0" ∷ get_group_ids w gs
    at_least_one [] h = absurd (h refl)
    at_least_one (g ∷ gs) h = ground arith

member_of_resolved :
    (w : World) (names : List Text) (gid : Text)
    → member_of gid (codes "0" ∷ get_group_ids w names) ≡ true
    → (gid ≡ codes "0") ⊎ IsNamed w names gid
member_of_resolved w names gid h =
    ground (arith, text_eq_iff gid (codes "0"), get_group_ids-IsNamed w names gid)

-- A list of groups is never switched off by names that the host does not know: a user that the set-up
-- server allows is root, or is in the group 0, or is in a group that the list names.
pub setup_server-IsAllowed :
    (w : World) (s : Settings) (u : HostUser)
    → s.no_auth ≡ false
    → s.allowed_groups ≢ []
    → IsAllowed w (setup_server w s).config u
    → (u.uid ≡ codes "0")
      ⊎ ((groups : List Text) × (gid : Text) × (w.group_ids u ≡ ok groups)
          × (member_of gid groups ≡ true)
          × ((gid ≡ codes "0") ⊎ IsNamed w s.allowed_groups gid))
unfolding setup_server
setup_server-IsAllowed w s u auth some_group (inl root) = inl root
setup_server-IsAllowed w s u auth some_group (inr (inl anyone)) =
    let e = resolved w s auth some_group in cc
setup_server-IsAllowed w s u auth some_group (inr (inr (groups, gid, group, e, m, g))) =
    let m' : group_match (codes "0" ∷ get_group_ids w s.allowed_groups) groups ≡ some gid =
      rw (resolved w s auth some_group) at m in
    let (listed, own) =
      (group_match_iff (codes "0" ∷ get_group_ids w s.allowed_groups) groups).1 gid m' in
    inr (groups, gid, e, own, member_of_resolved w s.allowed_groups gid listed)
