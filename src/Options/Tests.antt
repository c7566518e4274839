-- ===== src/Options/Tests.antt =====
-- Options that the theorems apply to.
use ssh2incus.Base.{◌≡◌, refl, ◌↔◌, true, false, List, [], ◌∷◌, All, arith}
use ssh2incus.Base.Result.{ok}
use ssh2incus.Base.Text.{Text, codes, join}
use ssh2incus.Auth.Setup.{Settings, by_nobody, setup_server, handle_key}
use ssh2incus.Auth.Tests.{world}
use ssh2incus.Auth.{AuthState}
use ssh2incus.LoginUser.{Login}
use ssh2incus.LoginUser.Valid.{KeyCache, check_login}
use ssh2incus.Options.Args.{parse_args, valid_bytes}
use ssh2incus.Options.Quoting.{quoted_all, non_empty, parse_args-quoted_all}
use ssh2incus.Options.Methods.{parse_auth_methods}
use ssh2incus.Options.Resolve.{Flags, init_auth}
use ssh2incus.Options.Open.{init_auth-by_nobody_iff, IsPlain}

abbrev words : List Text
words = codes "a b" ∷ [] ∷ codes "c\"d" ∷ []

words-valid :
    valid_bytes 0 (join (codes " ") (quoted_all words)) ≡ join (codes " ") (quoted_all words)
unfolding valid_bytes join
words-valid = refl

-- A byte that is no rune comes back as U+FFFD.
replaced_byte : parse_args (255 ∷ b'a' ∷ []) ≡ (239 ∷ 191 ∷ 189 ∷ b'a' ∷ []) ∷ []
unfolding parse_args
replaced_byte = refl

parse_args-quoted_all_example : parse_args (join (codes " ") (quoted_all words)) ≡ non_empty words
parse_args-quoted_all_example = parse_args-quoted_all words words-valid

abbrev flags : Flags
flags = record {
  inauth = false;
  instance_auth = false;
  noauth = true;
  password_auth = false;
  auth_methods = [];
  groups = codes "a,, b";
}

abbrev settings : Settings
settings = record {
  no_auth = true;
  instance_auth = false;
  pass_auth = false;
  auth_methods = [];
  allowed_groups = codes "a" ∷ codes "b" ∷ [];
}

initialised : init_auth flags ≡ ok settings
unfolding init_auth
initialised = refl

init_auth-by_nobody_iff_example :
    (((setup_server world settings).public_key_handler ≡ by_nobody) ↔ (
      (flags.noauth ≡ true)
      × (flags.instance_auth ≡ false)
      × (flags.inauth ≡ false)
      × (parse_auth_methods flags.auth_methods ≡ ok [])))
    × ((k : KeyCache) (lu : Login) (key : Text) (st : AuthState k)
        → (handle_key by_nobody k world (setup_server world settings).config lu key st).0
          ≡ (check_login k world.client lu st.caches).0)
init_auth-by_nobody_iff_example = init_auth-by_nobody_iff world flags settings initialised

abbrev plain : List Text
plain = codes "--shell" ∷ codes "fish" ∷ []

plain-IsPlain : All IsPlain plain
plain-IsPlain = (((λ e. cc), omega arith), (((λ e. cc), omega arith), tt))
