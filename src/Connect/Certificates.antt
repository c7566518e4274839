-- ===== src/Connect/Certificates.antt =====
-- Which parameters of a connection have certificates.
use ssh2incus.Base.{
  ◌≡◌, ◌≢◌, refl, sym, ap, ◌∙◌, ◌⊎◌, inr, Bool, true, false, Option, none, some, [], ◌∷◌,
  if◌then◌else◌, arith,
}
use ssh2incus.Base.Result.{ok}
use ssh2incus.Base.Text.{Text, is_empty}
use ssh2incus.Connect.{
  ConnectParams, CliConfig, Config, Environment, Files, is_https, params_of, remote_files,
  check_files, remote_params, url_files, check_named, url_params, local_params, choose_params,
  no_files,
}

is_empty-false : (s : Text) → is_empty s ≡ false → s ≢ []
is_empty-false [] h e = cc
is_empty-false (c ∷ s) h e = cc

is_empty_of_ne : (s : Text) → s ≢ [] → is_empty s ≡ false
is_empty_of_ne [] h = absurd (h refl)
is_empty_of_ne (c ∷ s) h = refl

-- A client certificate and a key, where the address is one of https.
abbrev pub IsUsable : ConnectParams → Type 0
IsUsable p = (is_https p.url ≡ false) ⊎ ((p.cert_file ≢ []) × (p.key_file ≢ []))

module _ (e : Environment) (c : Config) where
  check_named-IsUsable :
      (url : Text) (f : Files) (p : ConnectParams)
      → check_named url f ≡ ok p
      → (p ≡ params_of [] url f) × (f.cert_file ≢ []) × (f.key_file ≢ [])
  check_named-IsUsable url f p h =
      ground (arith, is_empty-false f.cert_file, is_empty-false f.key_file)

  url_params-if :
      (p : ConnectParams) (b : Bool)
      → is_https c.url ≡ b
      → (if b then check_named c.url (url_files e c) else ok (params_of [] c.url no_files)) ≡ ok p
      → IsUsable p × (p.server_cert_file ≡ []) × (p.url ≡ c.url)
  url_params-if p false plain h = ground arith
  url_params-if p true https h =
      let (same, cert, key) = check_named-IsUsable c.url (url_files e c) p h in
      rw same (inr (cert, key), refl, refl)

  local_params-url : c.url ≢ [] → local_params e c ≡ url_params e c
  local_params-url u = rw (is_empty_of_ne c.url u)

  choose_params-local :
      (cli : Option CliConfig) → c.remote ≡ [] → choose_params e c cli ≡ local_params e c
  unfolding choose_params
  choose_params-local none r = refl
  choose_params-local (some cli) r = rw (ap is_empty r)

  url_params-IsUsable :
      (p : ConnectParams)
      → url_params e c ≡ ok p
      → IsUsable p × (p.server_cert_file ≡ []) × (p.url ≡ c.url)
  unfolding url_params
  url_params-IsUsable p h = url_params-if p (is_https c.url) refl h

  check_files-ok :
      (addr : Text) (f : Files) (p : ConnectParams)
      → check_files e c.remote addr f ≡ ok p
      → (p ≡ params_of c.remote addr f)
        × (e.file_exists f.cert_file ≡ true)
        × (e.file_exists f.key_file ≡ true)
  check_files-ok addr f p h = ground arith

  https_remote :
      (cli : CliConfig) (addr : Text)
      → is_https addr ≡ true
      → remote_params e c cli (some addr) ≡ check_files e c.remote addr (remote_files c cli)
  unfolding remote_params
  https_remote cli addr https = rw https

  choose_params-of_remote :
      (cli : CliConfig)
      → c.remote ≢ []
      → choose_params e c (some cli) ≡ remote_params e c cli (cli.remote_addr c.remote)
  unfolding choose_params
  choose_params-of_remote cli r = rw (is_empty_of_ne c.remote r)

  -- Where a URL is configured and no remote, the parameters have that URL, and a client certificate and
  -- a key if it is one of https. They never have the certificate of the server, whatever is configured.
  pub choose_params-url :
      (cli : Option CliConfig) (p : ConnectParams)
      → c.remote ≡ []
      → c.url ≢ []
      → choose_params e c cli ≡ ok p
      → IsUsable p × (p.server_cert_file ≡ []) × (p.url ≡ c.url)
  choose_params-url cli p r u h =
      url_params-IsUsable p (sym (choose_params-local cli r ∙ local_params-url u) ∙ h)

  -- Where a remote with an address of https is configured, the parameters have the files of the
  -- configuration or those of the command line, among them the server's certificate, and the client's
  -- certificate and key exist.
  pub choose_params-remote :
      (cli : CliConfig) (addr : Text) (p : ConnectParams)
      → c.remote ≢ []
      → cli.remote_addr c.remote ≡ some addr
      → is_https addr ≡ true
      → choose_params e c (some cli) ≡ ok p
      → (p ≡ params_of c.remote addr (remote_files c cli))
        × (e.file_exists p.cert_file ≡ true)
        × (e.file_exists p.key_file ≡ true)
  choose_params-remote cli addr p r a https h =
      let run : check_files e c.remote addr (remote_files c cli) ≡ ok p =
        sym (
          choose_params-of_remote cli r
          ∙ ap (remote_params e c cli) a
          ∙ https_remote cli addr https)
        ∙ h in
      let (same, cert, key) = check_files-ok addr (remote_files c cli) p run in
      (same, rw same cert, rw same key)
