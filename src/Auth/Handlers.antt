-- ===== src/Auth/Handlers.antt =====
-- The authentication handlers of server/auth.go.
use ssh2incus.Base.{Bool, true, false, not, some, List, [], ◌∷◌, ◌++◌, if◌then◌else◌}
use ssh2incus.Base.Result.{Result, ok, err, ◌>>=◌}
use ssh2incus.Base.Text.{Text, codes}
use ssh2incus.LoginUser.{Login, is_command}
use ssh2incus.LoginUser.Valid.{KeyCache, check_login, is_ok}
use ssh2incus.Shadow.{shadow_path}
use ssh2incus.Shadow.Password.{check_host_shadow_password, check_shadow_password}
use ssh2incus.Buffer.{get_lines, bytes}
use ssh2incus.Auth.{
  World, Config, AuthState, HostUser, check_host_user, get_user_auth_keys, keys_equal, is_equal,
  download_file, instance_user_of,
}

module _ (k : KeyCache) (w : World) (config : Config) (lu : Login) where
  -- lu.IsValid() of a login user that is not nil
  unfoldable pub ask_valid : AuthState k → Bool × AuthState k
  unfolding check_login
  ask_valid st =
      let (valid, caches) = check_login k w.client lu st.caches in
      (valid, record st { caches = caches })

  -- if !lu.IsValid() { return false }; lu.PublicKey = key; return true
  unfoldable pub accept_key : Text → AuthState k → Bool × AuthState k
  unfolding ask_valid
  accept_key key st =
      let (valid, st') = ask_valid st in
      if valid then (true, record st' { public_key = some key }) else (false, st')

  -- The loop over the keys. No key at all is a refusal too.
  unfoldable pub auth_key_check : Text → List Text → AuthState k → Bool × AuthState k
  unfolding accept_key keys_equal
  auth_key_check key [] st = (false, st)
  auth_key_check key (auth_key ∷ auth_keys) st =
      let rest = auth_key_check key auth_keys st in
      if is_equal (keys_equal w key auth_key) then accept_key key st else rest

  unfoldable pub host_keys : Result (List Text)
  unfolding check_host_user get_user_auth_keys
  host_keys = check_host_user w config lu >>= get_user_auth_keys w

  abbrev pub check_keys : Text → Result (List Text) → AuthState k → Bool × AuthState k
  check_keys key (err m) st = (false, st)
  check_keys key (ok keys) st = auth_key_check key keys st

  unfoldable pub host_auth_handler : Text → AuthState k → Bool × AuthState k
  unfolding host_keys auth_key_check
  host_auth_handler key st = check_keys key host_keys st

  unfoldable pub instance_keys : Result (List Text)
  unfolding download_file get_lines
  instance_keys = do
    iu ← instance_user_of w lu
    file ← download_file w iu.project iu.instance_name (iu.dir ++ codes "/.ssh/authorized_keys")
    ok (get_lines file).0

  unfoldable pub instance_only_handler : Text → AuthState k → Bool × AuthState k
  unfolding ask_valid is_command instance_keys auth_key_check
  instance_only_handler key st =
      let (valid, st') = ask_valid st in
      if not valid
      then (false, st')
      else if is_command lu
      then (false, st')
      else check_keys key instance_keys st'

  unfoldable pub instance_auth_handler : Text → AuthState k → Bool × AuthState k
  unfolding host_auth_handler instance_only_handler
  instance_auth_handler key st =
      let (allowed, st') = host_auth_handler key st in
      if allowed then (true, st') else instance_only_handler key st'

  unfoldable pub no_auth_handler : Text → AuthState k → Bool × AuthState k
  unfolding accept_key
  no_auth_handler key st = accept_key key st

  unfoldable pub instance_password : Text → Result (Unit {0})
  unfolding download_file bytes check_shadow_password
  instance_password password = do
    iu ← instance_user_of w lu
    file ← download_file w iu.project iu.instance_name shadow_path
    check_shadow_password w.files w.hashes lu.instance_user password (bytes file)

  unfoldable pub instance_password_handler : Text → AuthState k → Bool × AuthState k
  unfolding ask_valid instance_password
  instance_password_handler password st =
      let (valid, st') = ask_valid st in
      if not valid then (false, st') else (is_ok (instance_password password), st')

  -- The handler, once the host user is known.
  unfoldable pub password_of : HostUser → Text → AuthState k → Bool × AuthState k
  unfolding instance_password_handler check_host_shadow_password
  password_of u password st =
      if is_ok (check_host_shadow_password w.files w.hashes u.username password)
      then (true, st)
      else if config.instance_auth
      then instance_password_handler password st
      else (false, st)

  unfoldable pub password_handler : Text → AuthState k → Bool × AuthState k
  unfolding password_of check_host_user
  password_handler password st = elim (check_host_user w config lu) [
    | ok u ↦ password_of u password st
    | err m ↦ (false, st)
  ]
