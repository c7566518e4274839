-- ===== src/Auth/Password.antt =====
-- Which passwords passwordHandler accepts.
use ssh2incus.Base.{◌≡◌, refl, ◌∙◌, ◌↔◌, inl, inr, true, false, [], arith, Bool-cases}
use ssh2incus.Base.Result.{Result, ok, err, >>=_ok, Result-cases}
use ssh2incus.Base.Text.{Text}
use ssh2incus.LoginUser.{Login}
use ssh2incus.LoginUser.Valid.{KeyCache, is_ok}
use ssh2incus.Buffer.{bytes, BytesBuffer}
use ssh2incus.Buffer.Laws.{close-write_all}
use ssh2incus.Shadow.{read_scan, shadow_path, lookup_file, read, found_in, Files}
use ssh2incus.Shadow.Password.{Hashes, check_shadow_password, check_host_shadow_password}
use ssh2incus.Shadow.Verify.{check_shadow_password-path}
use ssh2incus.Auth.{
  World, Config, AuthState, HostUser, check_host_user, download_file, instance_user_of,
}
use ssh2incus.Auth.Instance.{AreShort}
use ssh2incus.Auth.Handlers.{
  instance_password, instance_password_handler, password_of, password_handler,
}

is_ok_unit : (r : Result (Unit {0})) → is_ok r ≡ true → r ≡ ok tt
is_ok_unit (ok tt) h = refl
is_ok_unit (err m) h = cc

-- os.Open fails on the empty path.
check_nothing :
    (files : Files) (hs : Hashes) (user password m : Text)
    → files [] ≡ err m
    → check_shadow_password files hs user password [] ≡ err m
unfolding lookup_file read read_scan found_in
check_nothing files hs user password m e =
    (check_shadow_password-path files hs user password []).1 ∙ rw e

module _ (k : KeyCache) (w : World) (config : Config) (lu : Login) (m : Text)
    (no_path : w.files [] ≡ err m) (short : AreShort k w config lu) where
  downloaded_empty :
      (project name path : Text) (file : BytesBuffer)
      → download_file w project name path ≡ ok file
      → bytes file ≡ []
  unfolding download_file
  downloaded_empty project name path file h =
      let (chunks, c, f) = >>=_ok (w.instance_file w.client_project name path) _ file h in
      let e = (close-write_all w.long chunks (short _ _ _ chunks c)).1 in cc

  never_ok : (password : Text) → ¬ (instance_password k w config lu password ≡ ok tt)
  unfolding instance_password
  never_ok password h =
      let (iu, e, h1) = >>=_ok (instance_user_of w lu) _ tt h in
      let (file, d, h2) =
        >>=_ok (download_file w iu.project iu.instance_name shadow_path) _ tt h1 in
      let none_left = downloaded_empty iu.project iu.instance_name shadow_path file d in
      let h3 : check_shadow_password w.files w.hashes lu.instance_user password [] ≡ ok tt =
        rw none_left at h2 in
      let refused = check_nothing w.files w.hashes lu.instance_user password m no_path in cc

  instance_password_fails :
      (password : Text) → is_ok (instance_password k w config lu password) ≡ false
  instance_password_fails password =
      elim (Bool-cases (is_ok (instance_password k w config lu password))) [
        | inl accepted ↦ absurd (never_ok password (is_ok_unit _ accepted))
        | inr refused ↦ refused
      ]

  instance_password_handler_refuses :
      (password : Text) (st : AuthState k)
      → (instance_password_handler k w config lu password st).0 ≡ false
  unfolding instance_password_handler
  instance_password_handler_refuses password st = ground (arith, instance_password_fails password)

  password_of_iff :
      (u : HostUser) (password : Text) (st : AuthState k)
      → ((password_of k w config lu u password st).0 ≡ true)
        ↔ (check_host_shadow_password w.files w.hashes u.username password ≡ ok tt)
  unfolding password_of
  password_of_iff u password st = ground (
    arith,
    is_ok_unit (check_host_shadow_password w.files w.hashes u.username password),
    instance_password_handler_refuses password st,
  )

  -- Provided that no file has the empty path, and that no file of an instance has more than 2048 bytes,
  -- so that a scanner reads it to its end, a password is accepted exactly if the host user exists,
  -- is allowed, and the password is right for the host's own shadow file. A password of the instance's
  -- shadow file is never accepted, also with config.InstanceAuth: the content of the downloaded file
  -- has been read away by its Close, and what is left is taken for a path.
  pub password_handler_iff :
      (password : Text) (st : AuthState k)
      → ((password_handler k w config lu password st).0 ≡ true) ↔ (
          (u : HostUser) × (check_host_user w config lu ≡ ok u)
          × (check_host_shadow_password w.files w.hashes u.username password ≡ ok tt))
  unfolding password_handler
  password_handler_iff password st = (
    λ h. elim (Result-cases (check_host_user w config lu)) [
      | inl (u, e) ↦
          let h' : (password_of k w config lu u password st).0 ≡ true =
            rw (password_handler, e) at h in
          (u, e, (password_of_iff u password st).0 h')
      | inr (n, e) ↦ let h' : false ≡ true = rw (password_handler, e) at h in cc
    ],
    λ h. let (u, e, p) = h in rw (password_handler, e) ((password_of_iff u password st).1 p),
  )
