-- ===== src/LoginUser/Parse/Config.antt =====
-- server/user.go, parseCreateConfig: the options of a creation login, `+image+m4+c2+d20+nest+priv`.
use ssh2incus.Base.{true, ◌||◌, Option, none, some, List, [], ◌∷◌, ◌++◌, if◌then◌else◌}
use ssh2incus.Base.Int.{ℤ}
use ssh2incus.Base.Text.{
  Text, codes, text_eq, is_empty, starts_with_byte, has_prefix, trim_prefix, contains_byte, split,
  atoi,
}
use ssh2incus.LoginUser.{LoginCreateConfig}

abbrev tail : Text → Text
tail [] = []
tail (c ∷ s) = s

-- if n, err := strconv.Atoi(c[1:]); err == nil { field = &n }
abbrev pub parsed_or : Option ℤ → Option ℤ → Option ℤ
parsed_or none field = field
parsed_or (some n) field = some n

-- The first case that applies.
unfoldable pub parse_option : Text → LoginCreateConfig → LoginCreateConfig
parse_option c cc =
    if is_empty c
    then cc
    else if has_prefix (codes "%") c
    then record cc { profiles = cc.profiles ++ split b',' (trim_prefix (codes "%") c) }
    else if contains_byte b'/' c
    then record cc { image = some c }
    else if starts_with_byte b'm' c
    then record cc { memory = parsed_or (atoi (tail c)) cc.memory }
    else if starts_with_byte b'c' c
    then record cc { cpu = parsed_or (atoi (tail c)) cc.cpu }
    else if starts_with_byte b'd' c
    then record cc { disk = parsed_or (atoi (tail c)) cc.disk }
    else if text_eq c (codes "n") || has_prefix (codes "nest") c
    then record cc { nesting = some true }
    else if text_eq c (codes "p") || has_prefix (codes "priv") c
    then record cc { privileged = some true }
    else if text_eq c (codes "e") || has_prefix (codes "ephe") c
    then record cc { ephemeral = some true }
    else if text_eq c (codes "v") || text_eq c (codes "vm")
    then record cc { vm = some true }
    else cc

unfoldable pub parse_options : List Text → LoginCreateConfig → LoginCreateConfig
unfolding parse_option
parse_options [] cc = cc
parse_options (c ∷ cs) cc = parse_options cs (parse_option c cc)

unfoldable pub parse_create_config : Text → LoginCreateConfig → LoginCreateConfig
unfolding parse_options
parse_create_config config_str cc =
    if is_empty config_str then cc else parse_options (split b'+' config_str) cc
