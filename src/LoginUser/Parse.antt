-- ===== src/LoginUser/Parse.antt =====
-- server/user.go, ParseFrom and the functions that it calls. What the process knows of its host
-- (os.Getuid and the lookup of a user name by id) is the parameter `Host`.
pub mod Config
use ssh2incus.Base.{
  ℕ, zero, suc, Bool, true, ◌||◌, Option, none, some, [], ◌∷◌, ◌==◌, if◌then◌else◌,
}
use ssh2incus.Base.Text.{
  Text, codes, text_eq, is_empty, starts_with_byte, cut_prefix, cut, replace_all,
}
use ssh2incus.Base.Text.Decimal.{itoa}
use ssh2incus.LoginUser.{no_config, Login, zero_login, LoginUser, login_user, nil, pointer}
use Config.{parse_create_config}

pub record Host : Type 0 where
  pub uid : ℕ
  pub lookup_id : Text → Option Text

abbrev pub root : Text
root = codes "root"

abbrev pub default_project : Text
default_project = codes "default"

abbrev username_or_root : Option Text → Text
username_or_root none = root
username_or_root (some name) = name

unfoldable pub set_defaults : Host → Login → Login
set_defaults host lu = record lu {
  instance_user = root;
  project = default_project;
  user = if host.uid == 0 then root else username_or_root (host.lookup_id (itoa host.uid));
}

unfoldable pub is_creation_format : Text → Bool
is_creation_format user = starts_with_byte b'+' user || starts_with_byte b'~' user

default_if_empty : Login → Login
default_if_empty lu = if is_empty lu.project then record lu { project = default_project } else lu

unfoldable pub parse_instance_and_project : Text → Login → Login
unfolding default_if_empty
parse_instance_and_project instance_name lu = elim (cut b'.' instance_name) [
  | some (i, p) ↦ default_if_empty (record lu { instance_name = i; project = p })
  | none ↦ default_if_empty (record lu { instance_name = instance_name })
]

-- URL-decode @
unfoldable pub decode_at : Text → Text
decode_at s = replace_all (codes "%2540") (codes "@") (replace_all (codes "%40") (codes "@") s)

unfoldable pub parse_instance_and_user : Text → Login → Login
unfolding parse_instance_and_project decode_at
parse_instance_and_user instance_name lu =
    let decoded = decode_at instance_name in
    elim (cut b'@' decoded) [
      | some (u, i) ↦ parse_instance_and_project i (record lu { instance_user = u })
      | none ↦ parse_instance_and_project decoded lu
    ]

unfoldable pub parse_remote_and_instance : Text → Login → Login
unfolding parse_instance_and_user
parse_remote_and_instance instance_name lu = elim (cut b':' instance_name) [
  | some (r, i) ↦ parse_instance_and_user i (record lu { remote = r })
  | none ↦ parse_instance_and_user instance_name lu
]

abbrev tail : Text → Text
tail [] = []
tail (c ∷ s) = s

unfoldable pub creation_parts : Text → Login → Login
unfolding parse_remote_and_instance parse_create_config
creation_parts conf lu = elim (cut b'+' conf) [
  | some (i, options) ↦
      let lu' = parse_remote_and_instance i lu in
      record lu' { create_config = parse_create_config options lu'.create_config }
  | none ↦
      let lu' = parse_remote_and_instance conf lu in
      record lu' { create_config = parse_create_config [] lu'.create_config }
]

unfoldable pub parse_creation_format : Text → Login → Login
unfolding creation_parts
parse_creation_format user lu =
    let config = record no_config {
      ephemeral = if starts_with_byte b'~' user then some true else none;
    } in
    let lu' = record lu { create_instance = true; create_config = config } in
    elim (cut b'~' (tail user)) [
      | some (conf, u) ↦ creation_parts conf (record lu' { user = u })
      | none ↦ creation_parts (tail user) lu'
    ]

-- A command clears the instance, which no command uses.
abbrev pub clear : Text → Login → Login
clear command lu = record lu {
  command = command;
  instance_name = [];
  project = [];
  instance_user = [];
}

abbrev pub explaining : Login → Option LoginUser → Option LoginUser
explaining lu none = none
explaining lu (some target) = some (login_user (clear (codes "explain") lu) (pointer target) nil)

abbrev pub removing : Bool → Login → Option LoginUser → Option LoginUser
removing force lu none = none
removing force lu (some target) =
    some (
      login_user (clear (codes "remove") (record lu { force_remove = force })) nil (pointer target))

unfoldable pub is_force : Text → Bool
is_force name = text_eq name (codes "rm-f") || text_eq name (codes "remove-force")

unfoldable pub is_remove : Text → Bool
unfolding is_force
is_remove name = text_eq name (codes "rm") || text_eq name (codes "remove") || is_force name

-- `parse_target` is ParseFrom on a new login user.
unfoldable pub parse_command : (Text → Option LoginUser) → Text → Login → Option LoginUser
unfolding is_remove
parse_command parse_target cmd lu = elim (cut b'/' cmd) [
  | none ↦ some (login_user (clear cmd lu) nil nil)
  | some (name, target) ↦
      if text_eq name (codes "explain")
      then explaining lu (parse_target target)
      else if is_remove name
      then removing (is_force name) lu (parse_target target)
      else some (login_user (clear name lu) nil nil)
]

-- instance and host user
unfoldable pub host_user_format : Text → Login → Login
unfolding parse_remote_and_instance
host_user_format user lu = elim (cut b'~' user) [
  | some (i, u) ↦ parse_remote_and_instance i (record lu { user = u })
  | none ↦ elim (cut b'+' user) [
    | some (i, u) ↦ parse_remote_and_instance i (record lu { user = u })
    | none ↦ parse_remote_and_instance user lu
  ]
]

unfoldable pub session_format : Text → Login → Login
unfolding host_user_format
session_format user lu = elim (cut_prefix (codes "%") user) [
  | some u ↦ host_user_format u (record lu { persistent = true })
  | none ↦ host_user_format user lu
]

unfoldable pub parse_regular_format : (Text → Option LoginUser) → Text → Login → Option LoginUser
unfolding parse_command session_format cut_prefix
parse_regular_format parse_target user lu = elim (cut_prefix (codes "/") user) [
  | some cmd ↦ parse_command parse_target cmd lu
  | none ↦ some (login_user (session_format user lu) nil nil)
]

-- Go recurs without a bound; here `none` means that the fuel ran out.
unfoldable pub parse_from : ℕ → Host → Text → Login → Option LoginUser
unfolding set_defaults is_creation_format parse_creation_format parse_regular_format
parse_from zero host user lu = none
parse_from (suc fuel) host user lu =
    let lu' = record (set_defaults host lu) { orig_user = user } in
    let target = λ (t : Text). parse_from fuel host t zero_login in
    if is_creation_format user
    then some (login_user (parse_creation_format user lu') nil nil)
    else parse_regular_format target user lu'
