-- ===== src/LoginUser/Creation.antt =====
-- Printing the options of a creation login and parsing the print.
mod Options
pub mod Words
pub mod RoundTrip
use mathlib.Core.List.{append_assoc, append-nil}
use ssh2incus.Base.{
  ℕ, suc, ◌≡◌, ◌≢◌, ◌⊎◌, inl, inr, refl, ◌∙◌, ap, Bool, true, false, Option, none, some, List, [],
  ◌∷◌, ◌++◌, All, arith, sym,
}
use ssh2incus.Base.Int.{ℤ, pos, negsuc}
use ssh2incus.Base.Text.{Text, codes, contains_byte, starts_with_byte, split, join}
use ssh2incus.Base.Text.Cut.{Lacks}
use ssh2incus.Base.Text.Split.{split-join, join-append}
use ssh2incus.LoginUser.{LoginCreateConfig, no_config}
use ssh2incus.LoginUser.Parse.Config.{parse_options, parse_create_config}
use ssh2incus.LoginUser.Print.{
  config_words, flag_words, config_text, plus_words, given, numbered, flagged, percent_each,
  points_true,
}
use ssh2incus.Base.Text.Numbers.{IsInt}
use Options.{
  parse_option-memory, parse_option-cpu, parse_option-disk, parse_option-profile,
  parse_option-image, parse_option-nest, parse_option-priv, parse_option-vm,
}

abbrev pub OptionHas {ℓ κ} : {A : Type ℓ} → (A → Type κ) → Option A → Type κ
OptionHas P none = Unit
OptionHas P (some a) = P a

-- An image holds `/`, so that it is told apart from a number or a flag.
abbrev pub IsImage : Text → Type 0
IsImage s =
    (contains_byte b'/' s ≡ true) × (starts_with_byte b'%' s ≡ false) × Lacks b'+' s × Lacks b'~' s

abbrev pub IsProfile : Text → Type 0
IsProfile s = Lacks b',' s × Lacks b'+' s × Lacks b'~' s

-- A flag that the parser can set: never a pointer to false.
abbrev pub IsFlag : Option Bool → Type 0
IsFlag o = (o ≡ none) ⊎ (o ≡ some true)

pub record IsConfig (c : LoginCreateConfig) : Type 0 where
  pub image : OptionHas IsImage c.image
  pub memory : OptionHas IsInt c.memory
  pub cpu : OptionHas IsInt c.cpu
  pub disk : OptionHas IsInt c.disk
  pub nesting : IsFlag c.nesting
  pub privileged : IsFlag c.privileged
  pub vm : IsFlag c.vm
  pub profiles : All IsProfile c.profiles

parse_options-append :
    (xs ys : List Text) (c : LoginCreateConfig)
    → parse_options (xs ++ ys) c ≡ parse_options ys (parse_options xs c)
unfolding parse_options
parse_options-append [] ys c = refl
parse_options-append (x ∷ xs) ys c = parse_options-append xs ys _

abbrev first_of_two {ℓ} : {A : Type ℓ} → Option A → Option A → Option A
first_of_two none b = b
first_of_two (some a) b = some a

module _ (c : LoginCreateConfig) where
  options-image :
      (o : Option Text)
      → OptionHas IsImage o
      → parse_options (given (λ image. image) o) c ≡ record c { image = first_of_two o c.image }
  unfolding parse_options
  options-image none h = refl
  options-image (some s) h = parse_option-image c s h.0 h.1

  options-memory :
      (o : Option ℤ)
      → OptionHas IsInt o
      → parse_options (numbered (codes "m") o) c ≡ record c { memory = first_of_two o c.memory }
  unfolding parse_options
  options-memory none h = refl
  options-memory (some n) h = parse_option-memory c n h

  options-cpu :
      (o : Option ℤ)
      → OptionHas IsInt o
      → parse_options (numbered (codes "c") o) c ≡ record c { cpu = first_of_two o c.cpu }
  unfolding parse_options
  options-cpu none h = refl
  options-cpu (some n) h = parse_option-cpu c n h

  options-disk :
      (o : Option ℤ)
      → OptionHas IsInt o
      → parse_options (numbered (codes "d") o) c ≡ record c { disk = first_of_two o c.disk }
  unfolding parse_options
  options-disk none h = refl
  options-disk (some n) h = parse_option-disk c n h

options-profiles :
    (ps : List Text) (c : LoginCreateConfig)
    → All IsProfile ps
    → parse_options (percent_each ps) c ≡ record c { profiles = c.profiles ++ ps }
unfolding parse_options
options-profiles [] c h = rw append-nil
options-profiles (p ∷ ps) c (h, hs) =
    ap (parse_options (percent_each ps)) (parse_option-profile c p h.0)
    ∙ options-profiles ps (record c { profiles = c.profiles ++ p ∷ [] }) hs
    ∙ simp append_assoc

module _ (c : LoginCreateConfig) where
  options-nesting :
      (o : Option Bool)
      → IsFlag o
      → parse_options (flagged (codes "nest") o) c ≡ record c { nesting = first_of_two o c.nesting }
  unfolding parse_options
  options-nesting none h = refl
  options-nesting (some true) h = parse_option-nest c
  options-nesting (some false) h = ground arith

  options-privileged :
      (o : Option Bool)
      → IsFlag o
      → parse_options (flagged (codes "priv") o) c
        ≡ record c { privileged = first_of_two o c.privileged }
  unfolding parse_options
  options-privileged none h = refl
  options-privileged (some true) h = parse_option-priv c
  options-privileged (some false) h = ground arith

  options-vm :
      (o : Option Bool)
      → IsFlag o
      → parse_options (flagged (codes "vm") o) c ≡ record c { vm = first_of_two o c.vm }
  unfolding parse_options
  options-vm none h = refl
  options-vm (some true) h = parse_option-vm c
  options-vm (some false) h = ground arith

first_of_two-none {ℓ} : {A : Type ℓ} (o : Option A) → first_of_two o none ≡ o
first_of_two-none none = refl
first_of_two-none (some a) = refl

abbrev pub words : LoginCreateConfig → List Text
words c = config_words c ++ flag_words c

-- What the parser starts from: only the sign of the login has been read.
abbrev pub signed : LoginCreateConfig → LoginCreateConfig
signed c = record no_config { ephemeral = c.ephemeral }

pub parse_options-words :
    (c : LoginCreateConfig) → IsConfig c → parse_options (words c) (signed c) ≡ c
unfolding config_words flag_words
parse_options-words c v = simp parse_options-append (
    rw
      (
        options-image _ c.image v.image,
        options-profiles c.profiles _ v.profiles,
        options-memory _ c.memory v.memory,
        options-cpu _ c.cpu v.cpu,
        options-disk _ c.disk v.disk,
        options-nesting _ c.nesting v.nesting,
        options-privileged _ c.privileged v.privileged,
        options-vm _ c.vm v.vm,
      )
      (simp first_of_two-none))
