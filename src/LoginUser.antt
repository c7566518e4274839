-- ===== src/LoginUser.antt =====
-- server/user.go: the login string. The record `Login` holds the plain fields of the Go struct
-- `LoginUser`, and `LoginUser` adds its two pointers to further login users. `PublicKey` and `ctx`,
-- which no parser or printer touches, are left out. Parsing starts from the zero value of the
-- struct, as every caller does.
pub mod Parse
pub mod Print
pub mod Valid
pub mod Tests
pub mod Session
pub mod Total
pub mod Shape
pub mod Creation
use ssh2incus.Base.{ℕ, Bool, true, false, Option, none, some, List, [], not}
use ssh2incus.Base.Int.{ℤ}
use ssh2incus.Base.Text.{Text, codes, is_empty}

pub record LoginCreateConfig : Type 0 where
  pub image : Option Text
  pub memory : Option ℤ
  pub cpu : Option ℤ
  pub disk : Option ℤ
  pub ephemeral : Option Bool
  pub nesting : Option Bool
  pub privileged : Option Bool
  pub vm : Option Bool
  pub profiles : List Text

abbrev pub no_config : LoginCreateConfig
no_config = record {
  image = none;
  memory = none;
  cpu = none;
  disk = none;
  ephemeral = none;
  nesting = none;
  privileged = none;
  vm = none;
  profiles = [];
}

pub record Login : Type 0 where
  pub orig_user : Text
  pub remote : Text
  pub user : Text
  pub instance_name : Text
  pub project : Text
  pub instance_user : Text
  pub command : Text
  pub persistent : Bool
  pub create_instance : Bool
  pub create_config : LoginCreateConfig
  pub force_remove : Bool

-- &LoginUser{}
abbrev pub zero_login : Login
zero_login = record {
  orig_user = [];
  remote = [];
  user = [];
  instance_name = [];
  project = [];
  instance_user = [];
  command = [];
  persistent = false;
  create_instance = false;
  create_config = no_config;
  force_remove = false;
}

mutual
  pub data LoginUser : Type 0 where
    login_user : (login : Login) (explain_user remove_user : LoginPointer) → LoginUser

  pub data LoginPointer : Type 0 where
    nil : LoginPointer
    pointer : LoginUser → LoginPointer

abbrev pub login_of : LoginUser → Login
login_of (login_user login explain remove) = login

unfoldable pub is_command : Login → Bool
is_command lu = not (is_empty lu.command)
