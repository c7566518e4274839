-- ===== src/LoginUser/Session.antt =====
-- Printing a session login and parsing the print.
pub mod Parts
use mathlib.Core.List.{append_assoc}
use ssh2incus.Base.{
  ℕ, suc, ◌≡◌, ◌≢◌, ◌⊎◌, inl, inr, refl, ◌∙◌, ap, Bool, true, false, Option, none, some, List, [],
  ◌∷◌, ◌++◌, arith, All, if◌then◌else◌,
}
use ssh2incus.Base.Text.{Text, codes, is_empty, cut, cut_prefix, replace_all, starts_with_byte}
use ssh2incus.Base.Text.Cut.{Lacks, Lacks-append, cut-append, cut-eq-none, replace_all-eq_self}
use ssh2incus.LoginUser.{Login, zero_login, LoginUser, login_user, nil}
use ssh2incus.LoginUser.Parse.{
  Host, decode_at, parse_instance_and_project, parse_instance_and_user, parse_remote_and_instance,
  session_format, host_user_format, is_creation_format, parse_regular_format, set_defaults,
  parse_from,
}
use ssh2incus.LoginUser.Print.{session_text, remote_text, show, login_text}
pub use Parts.{IsPlain, IsProjectByte, IsSession}
use Parts.{located, remote_prefix, host_user_format-print, IsHead, IsHead-print}

abbrev percent : Bool → Text
percent b = if b then codes "%" else []

-- The printed login, bracketed the way the parser takes it apart.
abbrev printed : Login → Text
printed lu =
    (remote_prefix lu.remote ++ located lu.instance_user lu.instance_name lu.project)
    ++ b'~' ∷ lu.user

module _ (lu : Login) (valid : IsSession lu) where
  printed-IsHead : (c : ℕ) × (t : Text) × (printed lu ≡ c ∷ t) × IsHead c
  printed-IsHead =
      let (c, t, e, h) =
        IsHead-print lu.remote lu.instance_user (lu.instance_name ++ b'.' ∷ lu.project) valid.remote
          valid.instance_user in
      (c, t ++ b'~' ∷ lu.user, ap (λ (s : Text). s ++ b'~' ∷ lu.user) e, h)

  session_format-print :
      (lu' : Login)
      → lu'.remote ≡ []
      → session_format (percent lu.persistent ++ printed lu) lu' ≡ record lu' {
        remote = lu.remote;
        instance_user = lu.instance_user;
        instance_name = lu.instance_name;
        project = lu.project;
        user = lu.user;
        persistent = if lu.persistent then true else lu'.persistent;
      }
  unfolding session_format cut_prefix
  session_format-print lu' fresh =
      let (c, t, e, h) = printed-IsHead in
      ground (
        arith,
        e,
        h,
        host_user_format-print lu.remote lu.instance_user lu.instance_name lu.project lu.user lu'
            valid.remote valid.instance_user valid.instance_name valid.project valid.has_project
            fresh,
        host_user_format-print lu.remote lu.instance_user lu.instance_name lu.project lu.user
            (record lu' { persistent = true }) valid.remote valid.instance_user valid.instance_name
            valid.project valid.has_project fresh,
      )

regroup :
    (b : Bool) (r u i p h : Text)
    → (b ≡ false) ⊎ (r ≡ [])
    → remote_prefix r ++ (percent b ++ (u ++ (b'@' ∷ (i ++ (b'.' ∷ (p ++ b'~' ∷ h))))))
      ≡ percent b ++ ((remote_prefix r ++ located u i p) ++ b'~' ∷ h)
regroup false r u i p h c = simp append_assoc
regroup true r u i p h (inl e) = cc
regroup true r u i p h (inr e) = rw e (simp append_assoc)

show-printed :
    (lu : Login)
    → IsSession lu
    → (lu.persistent ≡ false) ⊎ (lu.remote ≡ [])
    → show (login_user lu nil nil) ≡ percent lu.persistent ++ printed lu
unfolding show session_text
show-printed lu valid c =
    rw (valid.no_create, valid.no_command)
      (regroup lu.persistent lu.remote lu.instance_user lu.instance_name lu.project lu.user c)

-- The fields that a login for a session carries, as a new login user.
abbrev pub session_of : Login → Text → Login
session_of lu text = record zero_login {
  orig_user = text;
  remote = lu.remote;
  user = lu.user;
  instance_name = lu.instance_name;
  project = lu.project;
  instance_user = lu.instance_user;
  persistent = lu.persistent;
}

-- Parsing the print of a session login gives the login back, whatever the host: the remote, the
-- instance, the project, both users and the `%` flag. The parts hold none of the bytes that the
-- format uses, the project is not empty, and the login is not both persistent and on a remote.
pub parse_from-show :
    (fuel : ℕ) (host : Host) (lu : Login)
    → IsSession lu
    → (lu.persistent ≡ false) ⊎ (lu.remote ≡ [])
    → parse_from (suc fuel) host (show (login_user lu nil nil)) zero_login
      ≡ some (login_user (session_of lu (show (login_user lu nil nil))) nil nil)
unfolding parse_from parse_regular_format
parse_from-show fuel host lu valid c =
    let (d, t, e, h) = printed-IsHead lu valid in
    ground (
      arith,
      show-printed lu valid c,
      e,
      h,
      session_format-print lu valid
          (record (set_defaults host zero_login) { orig_user = show (login_user lu nil nil) }) refl,
    )

host_user_format-persistent :
    (s : Text) (lu : Login) → (host_user_format s lu).persistent ≡ lu.persistent
unfolding host_user_format parse_remote_and_instance
host_user_format-persistent s lu = ground arith

-- A text whose first byte is none of `%+~/` is neither a command nor a creation.
parse_from_of_head :
    (fuel : ℕ) (host : Host) (s t : Text) (c : ℕ)
    → s ≡ c ∷ t
    → IsHead c
    → parse_from (suc fuel) host s zero_login
      ≡ some (
          login_user
            (host_user_format s (record (set_defaults host zero_login) { orig_user = s }))
            nil
            nil)
unfolding parse_from parse_regular_format session_format
parse_from_of_head fuel host s t c e h = ground arith

remote_prefix-IsHead :
    (r rest : Text)
    → All IsPlain r
    → r ≢ []
    → (c : ℕ) × (t : Text) × (remote_prefix r ++ rest ≡ c ∷ t) × IsHead c
remote_prefix-IsHead [] rest hr far = absurd (far refl)
remote_prefix-IsHead (c ∷ r) rest (h, hr) far = (c, (r ++ codes ":") ++ rest, refl, omega arith)

show-IsHead :
    (lu : Login)
    → IsSession lu
    → lu.remote ≢ []
    → (c : ℕ) × (t : Text) × (show (login_user lu nil nil) ≡ c ∷ t) × IsHead c
unfolding show session_text
show-IsHead lu valid far =
    rw (valid.no_create, valid.no_command) (remote_prefix-IsHead lu.remote _ valid.remote far)

-- The print of a login on a remote never parses as a persistent login: `%` is printed after the
-- remote, and parsed only as the first byte.
pub parse_from-show_remote :
    (fuel : ℕ) (host : Host) (lu : Login)
    → IsSession lu
    → lu.remote ≢ []
    → (r : Login) × (parse_from (suc fuel) host (show (login_user lu nil nil)) zero_login
        ≡ some (login_user r nil nil))
      × (r.persistent ≡ false)
unfolding set_defaults
parse_from-show_remote fuel host lu valid far =
    let s = show (login_user lu nil nil) in
    let (c, t, e, h) = show-IsHead lu valid far in
    (
      host_user_format s (record (set_defaults host zero_login) { orig_user = s }),
      parse_from_of_head fuel host s t c e h,
      host_user_format-persistent s _,
    )
