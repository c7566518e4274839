-- ===== src/Web/Credentials.antt =====
-- server/web.go: the basic authentication of the web interface.
pub mod Access
use ssh2incus.Base.{Bool, true, false, ◌||◌, Option, none, some, List, [], ◌∷◌, if◌then◌else◌}
use ssh2incus.Base.Text.{Text, text_eq, is_empty, cut, split}
use ssh2incus.Base.Text.Space.{trim_space}
use ssh2incus.Base.Dict.{Dict, lookup, insert}

-- strings.SplitN(s, ":", 2) is strings.Cut where there is a colon.
abbrev pub user_password : Option (Text × Text) → Dict Text → Dict Text
user_password none credentials = credentials
user_password (some (u, p)) credentials =
    if is_empty (trim_space u) || is_empty (trim_space p)
    then credentials
    else insert (trim_space u) (trim_space p) credentials

-- The body of the loop.
unfoldable pub add_pair : Text → Dict Text → Dict Text
unfolding cut
add_pair pair credentials =
    if is_empty (trim_space pair)
    then credentials
    else user_password (cut b':' (trim_space pair)) credentials

unfoldable pub add_pairs : List Text → Dict Text → Dict Text
unfolding add_pair
add_pairs [] credentials = credentials
add_pairs (p ∷ ps) credentials = add_pairs ps (add_pair p credentials)

unfoldable pub parse_web_auth_credentials : Text → Dict Text
unfolding add_pairs split
parse_web_auth_credentials s = if is_empty s then [] else add_pairs (split b',' s) []

abbrev pub expected : Text → Option Text → Bool
expected password none = false
expected password (some p) = text_eq p password

unfoldable pub basic_auth_validator : Dict Text → Text → Text → Bool
unfolding lookup text_eq
basic_auth_validator credentials username password = expected password (lookup username credentials)

-- Whether a request gets past the middleware of NewWebServer. `given` are the username and the password
-- of a well-formed Authorization header.
abbrev pub let_in : Dict Text → Option (Text × Text) → Bool
let_in [] given = true
let_in (c ∷ cs) none = false
let_in (c ∷ cs) (some (u, p)) = basic_auth_validator (c ∷ cs) u p

unfoldable pub is_served : Text → Option (Text × Text) → Bool
unfolding parse_web_auth_credentials basic_auth_validator
is_served web_auth given =
    if is_empty web_auth then true else let_in (parse_web_auth_credentials web_auth) given
