-- ===== src/Options/Open.antt =====
-- Which options open the server to everybody, and what a child process of the master is told.
use ssh2incus.Base.{◌≡◌, ◌≢◌, refl, sym, ap, ◌∙◌, ◌↔◌, true, false, List, [], ◌∷◌, ◌++◌, All, arith}
use ssh2incus.Base.Result.{Result, ok, err}
use ssh2incus.Base.Text.{Text, codes, join}
use ssh2incus.Auth.Setup.{Settings, by_nobody, setup_server, handle_key}
use ssh2incus.Auth.{World, Config, AuthState}
use ssh2incus.Auth.Handlers.{no_auth_handler, accept_key, ask_valid}
use ssh2incus.LoginUser.{Login}
use ssh2incus.LoginUser.Valid.{KeyCache, check_login}
use mathlib.Core.List.{append-nil, append_assoc}
use ssh2incus.Options.Methods.{parse_auth_methods}
use ssh2incus.Options.Resolve.{Flags, settings_of, with_methods, init_auth, args_env_value}
use ssh2incus.Options.Args.{Scan, no_scan, valid_bytes, end_arg, scan_rune, scan_runes, parse_args}

no_auth_handler-accepts :
    (k : KeyCache) (w : World) (config : Config) (lu : Login) (key : Text) (st : AuthState k)
    → (no_auth_handler k w config lu key st).0 ≡ (check_login k w.client lu st.caches).0
unfolding no_auth_handler accept_key ask_valid
no_auth_handler-accepts k w config lu key st = ground arith

by_nobody_iff :
    (w : World) (f : Flags) (methods : List Text)
    → ((setup_server w (settings_of f methods)).public_key_handler ≡ by_nobody)
      ↔ ((f.noauth ≡ true) × (f.instance_auth ≡ false) × (f.inauth ≡ false) × (methods ≡ []))
unfolding setup_server
by_nobody_iff w f [] = ground arith
by_nobody_iff w f (m ∷ ms) = ground arith

ok_injective : (ms ns : List Text) → ok ms ≡ ok ns → ms ≡ ns
ok_injective ms ns h = cc

parsed-by_nobody :
    (w : World) (f : Flags) (s : Settings) (r : Result (List Text))
    → with_methods f r ≡ ok s
    → ((setup_server w s).public_key_handler ≡ by_nobody)
      ↔ ((f.noauth ≡ true) × (f.instance_auth ≡ false) × (f.inauth ≡ false) × (r ≡ ok []))
parsed-by_nobody w f s (err m) h = cc
parsed-by_nobody w f s (ok methods) h =
    let same : settings_of f methods ≡ s = ground arith in
    let (open_to, open_from) = by_nobody_iff w f methods in
    rw (← same) (
      (λ o. let (a, b, c, d) = open_to o in (a, b, c, ap ok d)),
      (λ p. let (a, b, c, d) = p in open_from (a, b, c, ok_injective methods [] d)),
    )

-- The server gets noAuthHandler for its keys exactly if authentication is switched off, instance
-- authentication is not asked for under either of its names, and no methods are listed. That handler
-- accepts a key, whichever it is, exactly if the login is valid.
pub init_auth-by_nobody_iff :
    (w : World) (f : Flags) (s : Settings)
    → init_auth f ≡ ok s
    → (((setup_server w s).public_key_handler ≡ by_nobody) ↔ (
        (f.noauth ≡ true)
        × (f.instance_auth ≡ false)
        × (f.inauth ≡ false)
        × (parse_auth_methods f.auth_methods ≡ ok [])))
      × ((k : KeyCache) (lu : Login) (key : Text) (st : AuthState k)
          → (handle_key by_nobody k w (setup_server w s).config lu key st).0
            ≡ (check_login k w.client lu st.caches).0)
unfolding init_auth
init_auth-by_nobody_iff w f s h = (
  parsed-by_nobody w f s (parse_auth_methods f.auth_methods) h,
  λ k lu key st. no_auth_handler-accepts k w (setup_server w s).config lu key st,
)

-- A word that parseArgs does not take apart.
abbrev pub IsPlain : Text → Type 0
IsPlain w = (w ≢ []) × All (λ c. (c ≢ 32) × (c ≢ 92) × (c ≢ b'"')) w

abbrev outside : List Text → Text → Scan
outside done w = record { args = done; current_arg = w; in_quotes = false; escape_next = false }

scan_runes-plain :
    (s w rest : Text) (done : List Text)
    → All (λ c. (c ≢ 32) × (c ≢ 92) × (c ≢ b'"')) s
    → scan_runes (s ++ rest) (outside done w) ≡ scan_runes rest (outside done (w ++ s))
unfolding scan_runes
scan_runes-plain [] w rest done h = simp append-nil
scan_runes-plain (c ∷ s) w rest done (h, hs) =
    ap (scan_runes (s ++ rest)) (scan_rune-plain h)
    ∙ scan_runes-plain s (w ++ c ∷ []) rest done hs
    ∙ ap (λ v. scan_runes rest (outside done v)) (append_assoc w (c ∷ []) s)
  where
    scan_rune-plain :
        (c ≢ 32) × (c ≢ 92) × (c ≢ b'"') → scan_rune c (outside done w) ≡ outside done (w ++ c ∷ [])
    scan_rune-plain h = ground arith

end_arg-outside :
    (w : Text) (done : List Text) → w ≢ [] → end_arg (outside done w) ≡ outside (done ++ w ∷ []) []
end_arg-outside [] done h = absurd (h refl)
end_arg-outside (c ∷ w) done h = refl

scan_runes-join :
    (w : Text) (ws done : List Text)
    → All IsPlain (w ∷ ws)
    → (end_arg (scan_runes (join (codes " ") (w ∷ ws)) (outside done []))).args ≡ done ++ w ∷ ws
unfolding join scan_runes
scan_runes-join w [] done ((some_rune, plain), rest) =
    ap (λ sc. (end_arg sc).args)
      (ap (λ t. scan_runes t (outside done [])) (sym (append-nil w))
        ∙ scan_runes-plain w [] [] done plain)
    ∙ ap (λ sc. sc.args) (end_arg-outside w done some_rune)
scan_runes-join w (v ∷ ws) done ((some_rune, plain), rest) =
    let text = join (codes " ") (v ∷ ws) in
    ap (λ sc. (end_arg sc).args)
      (scan_runes-plain w [] (32 ∷ text) done plain
        ∙ ap (scan_runes text) (end_arg-outside w done some_rune))
    ∙ (scan_runes-join v ws (done ++ w ∷ []) rest ∙ append_assoc done (w ∷ []) (v ∷ ws))

abbrev parsed : Text → List Text
parsed s = (end_arg (scan_runes s no_scan)).args

parse_args-join :
    (ws : List Text)
    → All IsPlain ws
    → valid_bytes 0 (join (codes " ") ws) ≡ join (codes " ") ws
    → parse_args (join (codes " ") ws) ≡ ws
unfolding parse_args join scan_runes
parse_args-join [] h valid = ap parsed valid
parse_args-join (w ∷ ws) h valid = ap parsed valid ∙ scan_runes-join w ws [] h

-- Words without spaces, quotes and backslashes, in valid UTF-8, reach a child process as they are; but so do the words
-- of one argument that holds them with a space between, which is no longer one argument.
pub parse_args-args_env_value :
    (ws : List Text)
    → All IsPlain ws
    → valid_bytes 0 (join (codes " ") ws) ≡ join (codes " ") ws
    → (parse_args (args_env_value ws) ≡ ws)
      × (parse_args (args_env_value (join (codes " ") ws ∷ [])) ≡ ws)
unfolding args_env_value join
parse_args-args_env_value ws h valid = (parse_args-join ws h valid, parse_args-join ws h valid)
