-- ===== src/Auth/Instance.antt =====
-- Which keys instanceAuthHandler accepts, and which key the login user keeps.
use ssh2incus.Base.{
  ◌≤◌, length, ◌≡◌, refl, ◌⊎◌, inl, inr, Bool, true, false, some, List, [], ◌∷◌, ◌++◌,
  if◌then◌else◌, arith, Bool-cases,
}
use ssh2incus.Base.Result.{Result, ok, err, >>=_ok}
use ssh2incus.Base.Text.{Text, codes}
use ssh2incus.LoginUser.{Login, is_command}
use ssh2incus.LoginUser.Valid.{KeyCache, InstanceUser, check_login}
use ssh2incus.Buffer.{scan_lines, new_bytes_buffer, write_all, close, get_lines}
use ssh2incus.Buffer.Laws.{concat, close-write_all}
use ssh2incus.Auth.{World, Config, AuthState, download_file, instance_user_of, BytesBuffer}
use ssh2incus.Auth.Handlers.{
  ask_valid, accept_key, auth_key_check, check_keys, host_auth_handler, host_keys, instance_keys,
  instance_only_handler, instance_auth_handler, no_auth_handler,
}
use ssh2incus.Auth.Host.{Authorizes, HostAccepts, host_auth_handler_iff, auth_key_check_iff}

module _ (k : KeyCache) (w : World) (config : Config) (lu : Login) where
  -- No file that Incus sends has more than 2048 bytes.
  abbrev pub AreShort : Type 0
  AreShort =
      (project name path : Text) (chunks : List Text)
      → w.instance_file project name path ≡ ok chunks
      → length (concat chunks) ≤ 2048

  -- The key is one of the lines of authorized_keys under the home of the instance user, in the instance
  -- of the user's in the project in which the client stands, as Incus sends it.
  abbrev pub InstanceAccepts : Text → Type 0
  InstanceAccepts key =
      (iu : InstanceUser) × (chunks : List Text) × (instance_user_of w lu ≡ ok iu)
      × (w.instance_file w.client_project iu.instance_name (iu.dir ++ codes "/.ssh/authorized_keys")
          ≡ ok chunks)
      × Authorizes w key (scan_lines (concat chunks))

  lines_of :
      (chunks : List Text) (file : BytesBuffer) (lines : List Text)
      → length (concat chunks) ≤ 2048
      → ok (close (write_all chunks (new_bytes_buffer w.long))) ≡ ok file
      → ok (get_lines file).0 ≡ ok lines
      → lines ≡ scan_lines (concat chunks)
  lines_of chunks file lines short f l = let e = (close-write_all w.long chunks short).0 in cc

  instance_keys_ok :
      (key : Text) (lines : List Text)
      → AreShort
      → instance_keys k w config lu ≡ ok lines
      → Authorizes w key lines
      → InstanceAccepts key
  unfolding instance_keys download_file
  instance_keys_ok key lines short h a =
      let (iu, e, h1) = >>=_ok (instance_user_of w lu) _ lines h in
      let (file, d, h2) =
        >>=_ok
          (download_file w iu.project iu.instance_name (iu.dir ++ codes "/.ssh/authorized_keys")) _
          lines h1 in
      let (chunks, c, h3) =
        >>=_ok
          (w.instance_file w.client_project iu.instance_name
            (iu.dir ++ codes "/.ssh/authorized_keys"))
          _ file d in
      let found : Authorizes w key (scan_lines (concat chunks)) =
        rw (lines_of chunks file lines (short _ _ _ chunks c) h3 h2) at a in
      (iu, chunks, e, c, found)

  checked_key :
      (key : Text) (r : Result (List Text)) (st : AuthState k)
      → (check_keys k w config lu key r st).0 ≡ true
      → (lines : List Text) × (r ≡ ok lines) × Authorizes w key lines
  checked_key key (ok lines) st h =
      (lines, refl, ((auth_key_check_iff k w config lu key lines st).0 h).0)
  checked_key key (err m) st h = cc

  abbrev pub IsValidLogin : AuthState k → Type 0
  IsValidLogin st = (check_login k w.client lu st.caches).0 ≡ true

  instance_only :
      (key : Text) (st : AuthState k)
      → AreShort
      → (instance_only_handler k w config lu key st).0 ≡ true
      → IsValidLogin st × (is_command lu ≡ false) × InstanceAccepts key
  unfolding instance_only_handler ask_valid
  instance_only key st short h =
      let valid : IsValidLogin st = ground arith in
      let no_command : is_command lu ≡ false = ground arith in
      let checked : (check_keys k w config lu key (instance_keys k w config lu)
            (ask_valid k w config lu st).1).0
          ≡ true =
        ground arith in
      let (lines, e, a) = checked_key key (instance_keys k w config lu) _ checked in
      (valid, no_command, instance_keys_ok key lines short e a)

  -- Where no file of an instance has more than 2048 bytes, a key is accepted only if the host accepts it
  -- for this login and the login is valid, or if the login is found valid after the host's refusal, is
  -- no command, and a line of the instance user's authorized_keys is the key. That file is the one of
  -- the instance of this name in the project in which the client stands, which need not be the login's.
  pub instance_auth_handler_only :
      (key : Text) (st : AuthState k)
      → AreShort
      → (instance_auth_handler k w config lu key st).0 ≡ true
      → (HostAccepts k w config lu key × IsValidLogin st)
        ⊎ (IsValidLogin (host_auth_handler k w config lu key st).1
            × (is_command lu ≡ false)
            × InstanceAccepts key)
  unfolding instance_auth_handler
  instance_auth_handler_only key st short h =
      elim (Bool-cases (host_auth_handler k w config lu key st).0) [
        | inl host ↦ inl ((host_auth_handler_iff k w config lu key st).0 host)
        | inr other ↦
            inr (instance_only key (host_auth_handler k w config lu key st).1 short (ground arith))
      ]

  -- For a command the instance is never asked: the host alone decides.
  pub instance_auth_handler-command :
      (key : Text) (st : AuthState k)
      → is_command lu ≡ true
      → (instance_auth_handler k w config lu key st).0 ≡ (host_auth_handler k w config lu key st).0
  unfolding instance_auth_handler instance_only_handler
  instance_auth_handler-command key st h = ground arith

  abbrev pub Keeps : Text → AuthState k → Bool × AuthState k → Type 0
  Keeps key st r = r.1.public_key ≡ (if r.0 then some key else st.public_key)

  accept_key-public_key :
      (key : Text) (st : AuthState k) → Keeps key st (accept_key k w config lu key st)
  unfolding accept_key ask_valid
  accept_key-public_key key st = ground arith

  auth_key_check-public_key :
      (key : Text) (keys : List Text) (st : AuthState k)
      → Keeps key st (auth_key_check k w config lu key keys st)
  unfolding auth_key_check
  auth_key_check-public_key key [] st = refl
  auth_key_check-public_key key (line ∷ keys) st =
      ground (arith, accept_key-public_key key st, auth_key_check-public_key key keys st)

  check_keys-public_key :
      (key : Text) (r : Result (List Text)) (st : AuthState k)
      → Keeps key st (check_keys k w config lu key r st)
  check_keys-public_key key (err m) st = refl
  check_keys-public_key key (ok keys) st = auth_key_check-public_key key keys st

  host-Keeps :
      (key : Text) (st : AuthState k) → Keeps key st (host_auth_handler k w config lu key st)
  unfolding host_auth_handler
  host-Keeps key st = check_keys-public_key key (host_keys k w config lu) st

  ask_valid-public_key :
      (st : AuthState k) → (ask_valid k w config lu st).1.public_key ≡ st.public_key
  unfolding ask_valid
  ask_valid-public_key st = refl

  instance_only-Keeps :
      (key : Text) (st : AuthState k) → Keeps key st (instance_only_handler k w config lu key st)
  unfolding instance_only_handler
  instance_only-Keeps key st = ground (
    arith,
    ask_valid-public_key st,
    check_keys-public_key key (instance_keys k w config lu) (ask_valid k w config lu st).1,
  )

  instance-Keeps :
      (key : Text) (st : AuthState k) → Keeps key st (instance_auth_handler k w config lu key st)
  unfolding instance_auth_handler
  instance-Keeps key st =
      ground (
        arith,
        host-Keeps key st,
        instance_only-Keeps key (host_auth_handler k w config lu key st).1,
      )

  no_auth-Keeps :
      (key : Text) (st : AuthState k) → Keeps key st (no_auth_handler k w config lu key st)
  unfolding no_auth_handler
  no_auth-Keeps key st = accept_key-public_key key st

  -- Every handler of keys records the key exactly if it accepts it, and leaves a key that was
  -- recorded before alone if it refuses.
  pub handlers-public_key :
      (key : Text) (st : AuthState k)
      → Keeps key st (host_auth_handler k w config lu key st)
        × Keeps key st (instance_auth_handler k w config lu key st)
        × Keeps key st (no_auth_handler k w config lu key st)
  handlers-public_key key st = (host-Keeps key st, instance-Keeps key st, no_auth-Keeps key st)
