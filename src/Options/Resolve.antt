-- ===== src/Options/Resolve.antt =====
-- init.go, init: the configuration that the options give. config.go, ArgsEnvValue: what a child process
-- of the master is given.

use ssh2incus.Base.{Bool, true, false, not, ◌&&◌, ◌||◌, List, [], ◌∷◌, if◌then◌else◌}
use ssh2incus.Auth.Setup.{Settings}
use ssh2incus.Connect.{Config}
use ssh2incus.Options.Methods.{parse_auth_methods}
use ssh2incus.Base.Result.{Result, ok, err}
use ssh2incus.Base.Text.{Text, codes, text_eq, is_empty, split, join}
use ssh2incus.Base.Text.Space.{trim_space}

-- The values of viper that the authentication is configured by.
pub record Flags : Type 0 where
  pub inauth : Bool
  pub instance_auth : Bool
  pub noauth : Bool
  pub password_auth : Bool
  pub auth_methods : Text
  pub groups : Text

unfoldable pub allowed_groups : List Text → List Text
unfolding trim_space
allowed_groups [] = []
allowed_groups (g ∷ gs) =
    let rest = allowed_groups gs in if is_empty (trim_space g) then rest else trim_space g ∷ rest

abbrev pub is_nil {ℓ} : {A : Type ℓ} → List A → Bool
is_nil [] = true
is_nil (x ∷ xs) = false

unfoldable pub has_method : Text → List Text → Bool
unfolding text_eq
has_method m [] = false
has_method m (n ∷ ns) = text_eq n m || has_method m ns

-- The authentication below the parsing of the methods.
abbrev pub settings_of : Flags → List Text → Settings
settings_of f methods =
    let instance_auth = f.inauth || f.instance_auth in
    let noauth = if not (is_nil methods) && f.noauth then false else f.noauth in
    record {
      no_auth = noauth && not instance_auth;
      instance_auth = instance_auth;
      pass_auth = has_method (codes "password") methods || f.password_auth;
      auth_methods = methods;
      allowed_groups = allowed_groups (split b',' f.groups);
    }

abbrev pub with_methods : Flags → Result (List Text) → Result Settings
with_methods f (ok methods) = ok (settings_of f methods)
with_methods f (err m) = err m

-- log.Fatalf ends the program where the methods are invalid.
unfoldable pub init_auth : Flags → Result Settings
unfolding parse_auth_methods allowed_groups has_method
init_auth f = with_methods f (parse_auth_methods f.auth_methods)

-- An option of the connection that is not given is taken from the environment.
abbrev pub given_or_env : (Text → Text) → Text → Text → Text
given_or_env getenv value name = if is_empty value then getenv name else value

unfoldable pub init_connection : (Text → Text) → Config → Config
init_connection getenv c = record c {
  socket = given_or_env getenv c.socket (codes "INCUS_SOCKET");
  client_cert = given_or_env getenv c.client_cert (codes "INCUS_CLIENT_CERT");
  client_key = given_or_env getenv c.client_key (codes "INCUS_CLIENT_KEY");
}

unfoldable pub args_env_value : List Text → Text
unfolding join
args_env_value args = join (codes " ") args
