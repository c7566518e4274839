-- ===== src/LoginUser/Creation/RoundTrip.antt =====
-- Printing a login that creates an instance and parsing the print.
use mathlib.Core.List.{append_assoc, append-nil}
use ssh2incus.Base.{
  ℕ, ◌≡◌, ◌≢◌, inl, inr, refl, ◌∙◌, true, List, [], ◌∷◌, ◌++◌, All, arith, if◌then◌else◌, suc, some,
}
use ssh2incus.Base.Text.{Text, codes, join}
use ssh2incus.Base.Text.Cut.{Lacks, Lacks-append, cut-append, cut-eq-none}
use ssh2incus.LoginUser.{Login, zero_login, login_user, nil}
use ssh2incus.LoginUser.Parse.{
  Host, set_defaults, parse_instance_and_user, parse_remote_and_instance, creation_parts,
  parse_creation_format, parse_from,
}
use ssh2incus.LoginUser.Print.{points_true, show, creation_text, plus_words}
use ssh2incus.LoginUser.Session.{IsPlain}
use ssh2incus.LoginUser.Session.Parts.{
  All-map, remote_prefix, remote_prefix-Lacks, cut_colon-print, decode_at-eq_self,
  parse_instance_and_project-print,
}
use ssh2incus.LoginUser.Creation.{IsConfig, IsFlag, words, signed, parse_options-words}
use ssh2incus.LoginUser.Creation.Words.{words-Lacks, joined, config_text-words, parse_joined}
use ssh2incus.LoginUser.Parse.Config.{parse_create_config}

-- A project may also hold `/` and `.`.
abbrev pub IsCreationProjectByte : ℕ → Type 0
IsCreationProjectByte c = (c ≢ b'%') × (c ≢ b'+') × (c ≢ b'~') × (c ≢ b':') × (c ≢ b'@')

-- A login that creates an instance, as a user would write its parts.
pub record IsCreation (lu : Login) : Type 0 where
  pub create_instance : lu.create_instance ≡ true
  pub remote : All IsPlain lu.remote
  pub instance_name : All IsPlain lu.instance_name
  pub project : All IsCreationProjectByte lu.project
  pub has_project : lu.project ≢ []
  pub config : IsConfig lu.create_config
  pub ephemeral : IsFlag lu.create_config.ephemeral

plus_words-Lacks :
    (b : ℕ) → b'+' ≢ b → (ws : List Text) → All (Lacks b) ws → Lacks b (plus_words ws)
unfolding join
plus_words-Lacks b plus [] h = tt
plus_words-Lacks b plus (w ∷ []) (h, hs) = (plus, h)
plus_words-Lacks b plus (w ∷ v ∷ ws) (h, hs) =
    (plus, Lacks-append b w _ h (plus_words-Lacks b plus (v ∷ ws) hs))

module _ (r i p : Text) (hr : All IsPlain r) (hi : All IsPlain i) (hp : All IsCreationProjectByte p)
    (full : p ≢ []) where
  abbrev place : Text
  place = i ++ b'.' ∷ p

  place-Lacks : (b : ℕ) → b'.' ≢ b → Lacks b i → Lacks b p → Lacks b place
  place-Lacks b dot ki kp = Lacks-append b i (b'.' ∷ p) ki (dot, kp)

  place-Lacks_percent : Lacks b'%' place
  place-Lacks_percent =
      place-Lacks b'%' (omega arith) (All-map IsPlain (λ c. c ≢ b'%') (λ c h. h.0) i hi)
        (All-map IsCreationProjectByte (λ c. c ≢ b'%') (λ c h. h.0) p hp)

  place-Lacks_plus : Lacks b'+' place
  place-Lacks_plus =
      place-Lacks b'+' (omega arith) (All-map IsPlain (λ c. c ≢ b'+') (λ c h. h.1) i hi)
        (All-map IsCreationProjectByte (λ c. c ≢ b'+') (λ c h. h.1) p hp)

  place-Lacks_tilde : Lacks b'~' place
  place-Lacks_tilde =
      place-Lacks b'~' (omega arith) (All-map IsPlain (λ c. c ≢ b'~') (λ c h. h.2) i hi)
        (All-map IsCreationProjectByte (λ c. c ≢ b'~') (λ c h. h.2) p hp)

  place-Lacks_colon : Lacks b':' place
  place-Lacks_colon =
      place-Lacks b':' (omega arith) (All-map IsPlain (λ c. c ≢ b':') (λ c h. h.4) i hi)
        (All-map IsCreationProjectByte (λ c. c ≢ b':') (λ c h. h.3) p hp)

  place-Lacks_at : Lacks b'@' place
  place-Lacks_at =
      place-Lacks b'@' (omega arith) (All-map IsPlain (λ c. c ≢ b'@') (λ c h. h.5) i hi)
        (All-map IsCreationProjectByte (λ c. c ≢ b'@') (λ c h. h.4) p hp)

  place-parse :
      (lu : Login)
      → lu.remote ≡ []
      → parse_remote_and_instance (remote_prefix r ++ place) lu
        ≡ record lu { remote = r; instance_name = i; project = p }
  unfolding parse_remote_and_instance parse_instance_and_user
  place-parse lu fresh = ground (
    arith,
    cut_colon-print r place (All-map IsPlain (λ c. c ≢ b':') (λ c h. h.4) r hr) place-Lacks_colon,
    decode_at-eq_self place place-Lacks_percent,
    cut-eq-none b'@' place place-Lacks_at,
    parse_instance_and_project-print i p lu (All-map IsPlain (λ c. c ≢ b'.') (λ c h. h.6) i hi)
        full,
    parse_instance_and_project-print i p (record lu { remote = r })
        (All-map IsPlain (λ c. c ≢ b'.') (λ c h. h.6) i hi) full,
  )

  pub prefix-Lacks_plus : Lacks b'+' (remote_prefix r ++ place)
  prefix-Lacks_plus =
      Lacks-append b'+' (remote_prefix r) place
        (remote_prefix-Lacks b'+' r (omega arith)
          (All-map IsPlain (λ c. c ≢ b'+') (λ c h. h.1) r hr))
        place-Lacks_plus

  pub prefix-Lacks_tilde : Lacks b'~' (remote_prefix r ++ place)
  prefix-Lacks_tilde =
      Lacks-append b'~' (remote_prefix r) place
        (remote_prefix-Lacks b'~' r (omega arith)
          (All-map IsPlain (λ c. c ≢ b'~') (λ c h. h.2) r hr))
        place-Lacks_tilde

  creation_parts-words :
      (ws : List Text) (lu : Login)
      → lu.remote ≡ []
      → creation_parts ((remote_prefix r ++ place) ++ plus_words ws) lu ≡ record lu {
        remote = r;
        instance_name = i;
        project = p;
        create_config = parse_create_config (joined ws) lu.create_config;
      }
  unfolding creation_parts join
  creation_parts-words [] lu fresh = rw append-nil (
      ground (
        arith,
        cut-eq-none b'+' (remote_prefix r ++ place) prefix-Lacks_plus,
        place-parse lu fresh,
      ))
  creation_parts-words (w ∷ ws) lu fresh = ground (
    arith,
    cut-append b'+' (remote_prefix r ++ place) (join (codes "+") (w ∷ ws)) prefix-Lacks_plus,
    place-parse lu fresh,
  )

module _ (lu : Login) (valid : IsCreation lu) where
  abbrev body : Text
  body =
      (remote_prefix lu.remote ++ (lu.instance_name ++ b'.' ∷ lu.project))
      ++ plus_words (words lu.create_config)

  abbrev sign : Text
  sign = if points_true lu.create_config.ephemeral then codes "~" else codes "+"

  show-body : show (login_user lu nil nil) ≡ sign ++ body
  unfolding show creation_text
  show-body = rw (valid.create_instance, config_text-words) (simp append_assoc)

  body-Lacks : Lacks b'~' body
  body-Lacks =
      Lacks-append b'~' (remote_prefix lu.remote ++ (lu.instance_name ++ b'.' ∷ lu.project))
        (plus_words (words lu.create_config))
        (prefix-Lacks_tilde lu.remote lu.instance_name lu.project valid.remote valid.instance_name
          valid.project valid.has_project)
        (plus_words-Lacks b'~' (omega arith) (words lu.create_config)
          (words-Lacks b'~' (inr refl) lu.create_config valid.config))

  -- What the parser gives: the host user is the default one, since the print leaves it out.
  abbrev pub created_of : Host → Login
  created_of host = record (set_defaults host zero_login) {
    orig_user = show (login_user lu nil nil);
    remote = lu.remote;
    instance_name = lu.instance_name;
    project = lu.project;
    create_instance = true;
    create_config = lu.create_config;
  }

  config-print :
      parse_create_config (joined (words lu.create_config)) (signed lu.create_config)
      ≡ lu.create_config
  config-print =
      parse_joined (words lu.create_config) (signed lu.create_config)
        (words-Lacks b'+' (inl refl) lu.create_config valid.config)
      ∙ parse_options-words lu.create_config valid.config

  parse_creation_format-print :
      (base : Login)
      → base.remote ≡ []
      → parse_creation_format (sign ++ body) base ≡ record base {
        remote = lu.remote;
        instance_name = lu.instance_name;
        project = lu.project;
        create_instance = true;
        create_config = lu.create_config;
      }
  unfolding parse_creation_format
  parse_creation_format-print base fresh =
      let read =
        creation_parts-words lu.remote lu.instance_name lu.project valid.remote valid.instance_name
          valid.project valid.has_project (words lu.create_config)
          (record base { create_instance = true; create_config = signed lu.create_config }) fresh in
      let no_tilde = cut-eq-none b'~' body body-Lacks in
      let flag = valid.ephemeral in ground (arith, read, no_tilde, config-print)

fresh : (host : Host) → (set_defaults host zero_login).remote ≡ []
unfolding set_defaults
fresh host = refl

-- Parsing the print of a creation login gives back the remote, the instance, the project and every
-- option: the image, the sizes, the flags, the profiles and whether the instance is ephemeral. The
-- parts hold none of the bytes that the format uses, numbers fit an `int`, no flag points to false,
-- the image holds `/`, and the project is not empty. The host user is not printed: the parsed login
-- has the default one.
pub parse_from-show_creation :
    (fuel : ℕ) (host : Host) (lu : Login) (valid : IsCreation lu)
    → parse_from (suc fuel) host (show (login_user lu nil nil)) zero_login
      ≡ some (login_user (created_of lu valid host) nil nil)
unfolding parse_from
parse_from-show_creation fuel host lu valid =
    let printed = show-body lu valid in
    let flag = valid.ephemeral in
    let base = record (set_defaults host zero_login) { orig_user = show (login_user lu nil nil) } in
    ground (arith, printed, parse_creation_format-print lu valid base (fresh host))
