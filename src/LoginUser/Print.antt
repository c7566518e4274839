-- ===== src/LoginUser/Print.antt =====
-- server/user.go, (*LoginUser).String and the keys built from a login user.
use ssh2incus.Base.{Bool, false, Option, none, some, List, [], ◌∷◌, ◌++◌, if◌then◌else◌}
use ssh2incus.Base.Int.{ℤ}
use ssh2incus.Base.Text.{Text, codes, text_eq, is_empty, join}
use ssh2incus.Base.Text.Numbers.{show_int}
use ssh2incus.LoginUser.{
  LoginCreateConfig, Login, LoginUser, login_user, LoginPointer, nil, pointer,
}

abbrev pub given : (Text → Text) → Option Text → List Text
given f none = []
given f (some a) = f a ∷ []

abbrev pub numbered : Text → Option ℤ → List Text
numbered letter none = []
numbered letter (some n) = (letter ++ show_int n) ∷ []

-- if p != nil && *p
abbrev pub points_true : Option Bool → Bool
points_true none = false
points_true (some b) = b

abbrev pub flagged : Text → Option Bool → List Text
flagged word p = if points_true p then word ∷ [] else []

abbrev pub percent_each : List Text → List Text
percent_each [] = []
percent_each (p ∷ ps) = (codes "%" ++ p) ∷ percent_each ps

-- What `cc` holds after its first, empty entry.
unfoldable pub config_words : LoginCreateConfig → List Text
config_words c =
    given (λ image. image) c.image
    ++ (percent_each c.profiles
        ++ (numbered (codes "m") c.memory
            ++ (numbered (codes "c") c.cpu ++ numbered (codes "d") c.disk)))

-- What `conf` holds after its first, empty entry.
unfoldable pub flag_words : LoginCreateConfig → List Text
flag_words c =
    flagged (codes "nest") c.nesting
    ++ (flagged (codes "priv") c.privileged ++ flagged (codes "vm") c.vm)

-- Nothing, or strings.Join over the list with its first, empty entry.
abbrev pub plus_words : List Text → Text
plus_words [] = []
plus_words (w ∷ ws) = join (codes "+") ([] ∷ w ∷ ws)

unfoldable pub config_text : LoginCreateConfig → Text
unfolding config_words flag_words join
config_text c = plus_words (config_words c) ++ plus_words (flag_words c)

abbrev pub remote_text : Login → Text
remote_text lu = if is_empty lu.remote then [] else lu.remote ++ codes ":"

unfoldable pub creation_text : Login → Text
unfolding config_text
creation_text lu =
    (if points_true lu.create_config.ephemeral then codes "~" else codes "+")
    ++ (remote_text lu
        ++ (lu.instance_name ++ (codes "." ++ (lu.project ++ config_text lu.create_config))))

unfoldable pub session_text : Login → Text
session_text lu =
    remote_text lu
    ++ ((if lu.persistent then codes "%" else [])
        ++ (lu.instance_user
            ++ (codes "@"
                ++ (lu.instance_name ++ (codes "." ++ (lu.project ++ (codes "~" ++ lu.user)))))))

abbrev other_command : Login → Text
other_command lu = codes "/" ++ (lu.command ++ (codes "@" ++ lu.user))

abbrev explain_text : Login → Option Text → Text
explain_text lu none = other_command lu
explain_text lu (some target) = codes "/explain/" ++ target

abbrev remove_text : Login → Option Text → Text
remove_text lu none = other_command lu
remove_text lu (some target) =
    codes "/"
    ++ ((if lu.force_remove then codes "remove-force" else codes "remove") ++ (codes "/" ++ target))

-- The two optional texts are those of `ExplainUser` and `RemoveUser`.
unfoldable pub login_text : Login → Option Text → Option Text → Text
unfolding creation_text session_text
login_text lu explain remove =
    if lu.create_instance
    then creation_text lu
    else if is_empty lu.command
    then session_text lu
    else if text_eq lu.command (codes "explain")
    then explain_text lu explain
    else if text_eq lu.command (codes "remove")
    then remove_text lu remove
    else other_command lu

unfoldable mutual
  unfolding login_text

  pub show : LoginUser → Text
  show (login_user lu explain remove) = login_text lu (show_pointer explain) (show_pointer remove)

  pub show_pointer : LoginPointer → Option Text
  show_pointer nil = none
  show_pointer (pointer u) = some (show u)

unfoldable pub full_instance : Login → Text
full_instance lu = lu.instance_name ++ (codes "." ++ lu.project)

unfoldable pub hash : Login → Text
hash lu =
    join (codes "/") (lu.remote ∷ lu.user ∷ lu.project ∷ lu.instance_name ∷ lu.instance_user ∷ [])

unfoldable pub instance_hash : Login → Text
instance_hash lu = join (codes "/") (lu.remote ∷ lu.project ∷ lu.instance_name ∷ [])
