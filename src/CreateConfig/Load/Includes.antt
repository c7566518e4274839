-- ===== src/CreateConfig/Load/Includes.antt =====
-- What loading puts into the maps of a config.
use ssh2incus.Base.{ℕ, ◌≡◌, ◌≢◌, refl, sym, ap, ◌∙◌, Option, none, some, [], ◌∷◌, arith}
use ssh2incus.Base.Result.{Result, ok, err, ok_injective, >>=_ok, ◌>>=◌}
use ssh2incus.Base.Text.{Text}
use ssh2incus.Base.Dict.{Dict}
use ssh2incus.CreateConfig.{CreateConfig, InstanceCreateConfig}
use ssh2incus.CreateConfig.Maps.{Store, write_config, update}
use mathlib.Core.Path.{subst}
use ssh2incus.Base.Text.Path.{dir_path}
use ssh2incus.CreateConfig.Load.{
  Host, included, process_includes, include_in, include_profiles, load_create_config, loaded,
  include_all, said, profile_error, defaults_error,
}

abbrev pub contents : Store → Option ℕ → Dict Text
contents s none = []
contents s (some a) = s.config_at a

-- The same keys, each with the value or with the content of the file that the value includes.
abbrev pub IsIncluded : Host → Text → Dict Text → Dict Text → Type 0
IsIncluded h d [] [] = Unit
IsIncluded h d [] (e ∷ m) = ⊥
IsIncluded h d (e ∷ m) [] = ⊥
IsIncluded h d ((k, v) ∷ m) ((j, w) ∷ n) = (k ≡ j) × (included h d v ≡ ok w) × IsIncluded h d m n

update_self {ℓ} : {A : Type ℓ} (f : ℕ → A) (a : ℕ) (v : A) → update f a v a ≡ v
unfolding update
update_self f a v = ground arith

update_other {ℓ} : {A : Type ℓ} (f : ℕ → A) (a b : ℕ) (v : A) → a ≢ b → update f a v b ≡ f b
unfolding update
update_other f a b v other = ground arith

process_includes-IsIncluded :
    (h : Host) (d : Text) (m n : Dict Text) → process_includes h d m ≡ ok n → IsIncluded h d m n
unfolding process_includes
process_includes-IsIncluded h d [] [] e = tt
process_includes-IsIncluded h d [] (x ∷ n) e = cc
process_includes-IsIncluded h d ((k, v) ∷ m) n e =
    let (w, read, e') = >>=_ok (included h d v) _ n e in
    let (n', more, e'') = >>=_ok (process_includes h d m) _ n e' in
    whole w n' (ok_injective ((k, w) ∷ n') n e'') read (process_includes-IsIncluded h d m n' more)
  where
    whole :
        (w : Text) (n' : Dict Text)
        → (k, w) ∷ n' ≡ n
        → included h d v ≡ ok w
        → IsIncluded h d m n'
        → IsIncluded h d ((k, v) ∷ m) n
    whole w n' e read more = subst (IsIncluded h d ((k, v) ∷ m)) e (refl, read, more)

-- The map is another one than those of the profiles.
abbrev pub IsApart : Option ℕ → Dict InstanceCreateConfig → Type 0
IsApart a [] = Unit
IsApart none ((name, p) ∷ ps) = Unit
IsApart (some a) ((name, p) ∷ ps) = (p.config ≢ some a) × IsApart (some a) ps

abbrev pub AreApart : Dict InstanceCreateConfig → Type 0
AreApart [] = Unit
AreApart ((name, p) ∷ ps) = IsApart p.config ps × AreApart ps

said_ok {ℓ κ} :
    {A : Type ℓ} {B : Type κ} (what : Text) (r : Result A) (f : A → Result B) (b : B)
    → (said what r >>= f) ≡ ok b
    → (a : A) × (r ≡ ok a) × (f a ≡ ok b)
said_ok what (ok a) f b e = (a, refl, e)
said_ok what (err m) f b e = cc

module _ (h : Host) (d : Text) where
  include_in-IsIncluded :
      (a : Option ℕ) (s t : Store)
      → include_in h d a s ≡ ok t
      → IsIncluded h d (contents s a) (contents t a)
  unfolding include_in write_config
  include_in-IsIncluded none s t e = tt
  include_in-IsIncluded (some a) s t e =
      let (m, read, e') = >>=_ok (process_includes h d (s.config_at a)) _ t e in
      subst (λ x. IsIncluded h d (s.config_at a) (x.config_at a)) (ok_injective _ t e')
        (rw (update_self s.config_at a m) (process_includes-IsIncluded h d (s.config_at a) m read))

  include_in-elsewhere :
      (a : Option ℕ) (b : ℕ) (s t : Store)
      → a ≢ some b
      → include_in h d a s ≡ ok t
      → t.config_at b ≡ s.config_at b
  unfolding include_in write_config
  include_in-elsewhere none b s t other e = ap (λ x. x.config_at b) (sym (ok_injective s t e))
  include_in-elsewhere (some a) b s t other e =
      let (m, read, e') = >>=_ok (process_includes h d (s.config_at a)) _ t e in
      ap (λ x. x.config_at b) (sym (ok_injective _ t e'))
      ∙ update_other s.config_at a b m (λ q. other (ap some q))

  include_profiles-elsewhere :
      (ps : Dict InstanceCreateConfig) (b : ℕ) (s t : Store)
      → IsApart (some b) ps
      → include_profiles h d ps s ≡ ok t
      → t.config_at b ≡ s.config_at b
  unfolding include_profiles
  include_profiles-elsewhere [] b s t apart e = ap (λ x. x.config_at b) (sym (ok_injective s t e))
  include_profiles-elsewhere ((name, p) ∷ ps) b s t (other, apart) e =
      let (s', first, e') =
        said_ok (profile_error name) (include_in h d p.config s) (include_profiles h d ps) t e in
      include_profiles-elsewhere ps b s' t apart e'
      ∙ include_in-elsewhere p.config b s s' other first

  contents-elsewhere :
      (ps : Dict InstanceCreateConfig) (a : Option ℕ) (s t : Store)
      → IsApart a ps
      → include_profiles h d ps s ≡ ok t
      → contents t a ≡ contents s a
  contents-elsewhere ps none s t apart e = refl
  contents-elsewhere ps (some b) s t apart e = include_profiles-elsewhere ps b s t apart e

  -- The maps of the profiles, before and afterwards.
  abbrev pub AreIncluded : Store → Store → Dict InstanceCreateConfig → Type 0
  AreIncluded s t [] = Unit
  AreIncluded s t ((name, p) ∷ ps) =
      IsIncluded h d (contents s p.config) (contents t p.config) × AreIncluded s t ps

  -- A map that is apart from those of the profiles does not matter for them.
  AreIncluded-before :
      (ps : Dict InstanceCreateConfig) (a : Option ℕ) (s s' t : Store)
      → IsApart a ps
      → include_in h d a s ≡ ok s'
      → AreIncluded s' t ps
      → AreIncluded s t ps
  unfolding include_in
  AreIncluded-before [] a s s' t apart e all = tt
  AreIncluded-before ((name, p) ∷ ps) none s s' t apart e (one, all) =
      subst (λ x. AreIncluded x t ((name, p) ∷ ps)) (sym (same s s' e)) (one, all)
    where
      same : (s s' : Store) → include_in h d none s ≡ ok s' → s ≡ s'
      same s s' e = ok_injective s s' e
  AreIncluded-before ((name, p) ∷ ps) (some b) s s' t (other, apart) e (one, all) = (
    subst (λ m. IsIncluded h d m (contents t p.config)) (kept p.config other) one,
    AreIncluded-before ps (some b) s s' t apart e all,
  )
    where
      kept : (a : Option ℕ) → a ≢ some b → contents s' a ≡ contents s a
      kept none other = refl
      kept (some c) other = include_in-elsewhere (some b) c s s' (λ q. other (sym q)) e

  include_profiles-AreIncluded :
      (ps : Dict InstanceCreateConfig) (s t : Store)
      → AreApart ps
      → include_profiles h d ps s ≡ ok t
      → AreIncluded s t ps
  unfolding include_profiles
  include_profiles-AreIncluded [] s t apart e = tt
  include_profiles-AreIncluded ((name, p) ∷ ps) s t (mine, apart) e =
      let (s', first, e') =
        said_ok (profile_error name) (include_in h d p.config s) (include_profiles h d ps) t e in
      (
        subst (IsIncluded h d (contents s p.config))
            (sym (contents-elsewhere ps p.config s' t mine e'))
            (include_in-IsIncluded p.config s s' first),
        AreIncluded-before ps p.config s s' t mine first
            (include_profiles-AreIncluded ps s' t apart e'),
      )

-- The YAML package makes a map of its own for each map of a config.
abbrev pub MakesMaps : Host → Type 0
MakesMaps h =
    (text : Text) (s t : Store) (c : CreateConfig)
    → h.unmarshal text s ≡ ok (c, t)
    → IsApart c.defaults.config c.profiles × AreApart c.profiles

-- What a config that is loaded from a path comes from.
abbrev pub IsLoaded : Host → Text → Store → CreateConfig × Store → Type 0
IsLoaded h path s (c, t) =
    (text : Text) × (decoded : CreateConfig) × (s' : Store) × (h.read_file path ≡ ok text)
    × (h.unmarshal text s ≡ ok (decoded, s'))
    × (c ≡ loaded path decoded)
    × IsIncluded h (dir_path path) (contents s' decoded.defaults.config)
        (contents t decoded.defaults.config)
    × AreIncluded h (dir_path path) s' t decoded.profiles

include_all-IsLoaded :
    (h : Host) (path text : Text) (s s' t : Store) (c decoded : CreateConfig)
    → MakesMaps h
    → h.read_file path ≡ ok text
    → h.unmarshal text s ≡ ok (decoded, s')
    → include_all h path (decoded, s') ≡ ok (c, t)
    → IsLoaded h path s (c, t)
include_all-IsLoaded h path text s s' t c decoded makes read known e =
    let d = dir_path path in
    let (apart, all_apart) = makes text s s' decoded known in
    let finish : Store → Result (CreateConfig × Store) = λ s₂. ok (loaded path decoded, s₂) in
    let (s₁, first, e') =
      said_ok defaults_error (include_in h d decoded.defaults.config s')
        (λ s₁. include_profiles h d decoded.profiles s₁ >>= finish) (c, t) e in
    let (s₂, rest, e'') = >>=_ok (include_profiles h d decoded.profiles s₁) finish (c, t) e' in
    let pair : ◌≡◌ {A = CreateConfig × Store} (loaded path decoded, s₂) (c, t) =
      ok_injective _ _ e'' in
    subst (IsLoaded h path s) pair (
      text,
      decoded,
      s',
      read,
      known,
      refl,
      subst (IsIncluded h d (contents s' decoded.defaults.config))
          (sym (contents-elsewhere h d decoded.profiles decoded.defaults.config s₁ s₂ apart rest))
          (include_in-IsIncluded h d decoded.defaults.config s' s₁ first),
      AreIncluded-before h d decoded.profiles decoded.defaults.config s' s₁ s₂ apart first
          (include_profiles-AreIncluded h d decoded.profiles s₁ s₂ all_apart rest),
    )

-- A config that loads is the one that its file holds, with the defaults active; and in the config maps
-- of its defaults and of each of its profiles the same keys have the same values, or the contents of
-- the files that these include.
pub load_create_config-IsLoaded :
    (h : Host) (path : Text) (s : Store) (r : CreateConfig × Store)
    → MakesMaps h
    → load_create_config h path s ≡ ok r
    → IsLoaded h path s r
unfolding load_create_config
load_create_config-IsLoaded h path s (c, t) makes e =
    let (text, read, e') = >>=_ok (h.read_file path) _ (c, t) e in
    let ((decoded, s'), known, e'') = >>=_ok (h.unmarshal text s) _ (c, t) e' in
    include_all-IsLoaded h path text s s' t c decoded makes read known e''
