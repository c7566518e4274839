-- ===== src/CreateConfig/Load.antt =====
-- server/create-config.go: processIncludes, LoadCreateConfig and LoadCreateConfigWithFallback.
pub mod Includes
pub mod Fallback
mod Tests
use ssh2incus.Base.{ℕ, Bool, not, Option, none, some, List, [], ◌∷◌, ◌++◌, if◌then◌else◌}
use ssh2incus.Base.Result.{Result, ok, err, ◌>>=◌}
use ssh2incus.Base.Text.{Text, codes, cut_prefix}
use ssh2incus.Base.Text.Space.{trim_space}
use ssh2incus.Base.Dict.{Dict}
use ssh2incus.Base.Text.Path.{is_abs, join_path, dir_path}
use ssh2incus.CreateConfig.{InstanceCreateConfig, CreateConfig}
use ssh2incus.CreateConfig.Maps.{Store, write_config}

-- The files of the host, and the YAML package, which makes the maps of a config in the store.
pub record Host : Type 0 where
  pub read_file : Text → Result Text
  pub stat : Text → Bool
  pub getwd : Result Text
  pub unmarshal : Text → Store → Result (CreateConfig × Store)

-- An error is passed on with a text before it.
abbrev pub said {ℓ} : {A : Type ℓ} → Text → Result A → Result A
said what (ok a) = ok a
said what (err m) = err (what ++ m)

abbrev pub trimmed : Option Text → Option Text
trimmed none = none
trimmed (some s) = some (trim_space s)

-- The name of the file that a value includes.
unfoldable pub include_of : Text → Option Text
unfolding trim_space cut_prefix
include_of value = elim (cut_prefix (codes "!include ") (trim_space value)) [
  | some name ↦ some (trim_space name)
  | none ↦ trimmed (cut_prefix (codes "<@") (trim_space value))
]

abbrev pub profile_error : Text → Text
profile_error name = codes "error processing includes in profile " ++ (name ++ codes " config: ")

abbrev pub defaults_error : Text
defaults_error = codes "error processing includes in defaults config: "

module _ (h : Host) (config_dir : Text) where
  -- A relative name is one beside the config file, or else one in the working directory.
  unfoldable pub include_path : Text → Result Text
  unfolding join_path
  include_path name =
      if is_abs name
      then ok name
      else let beside = join_path (config_dir ∷ name ∷ []) in
        if h.stat beside
        then ok beside
        else said (codes "could not get current working directory: ") h.getwd >>= λ cwd.
            ok (join_path (cwd ∷ name ∷ []))

  abbrev pub read_include : Text → Result Text
  read_include path =
      said (codes "could not read include file " ++ (path ++ codes ": ")) (h.read_file path)

  abbrev pub value_of : Text → Option Text → Result Text
  value_of value none = ok value
  value_of value (some name) = include_path name >>= read_include

  unfoldable pub included : Text → Result Text
  unfolding include_of include_path
  included value = value_of value (include_of value)

  -- The values of the map are replaced in place; the order of its keys decides at most which error is
  -- the one.
  unfoldable pub process_includes : Dict Text → Result (Dict Text)
  unfolding included
  process_includes [] = ok []
  process_includes ((k, v) ∷ m) = do v' ← included v; m' ← process_includes m; ok ((k, v') ∷ m')

  unfoldable pub include_in : Option ℕ → Store → Result Store
  unfolding process_includes write_config
  include_in none s = ok s
  include_in (some a) s = process_includes (s.config_at a) >>= λ m. ok (write_config a m s)

  unfoldable pub include_profiles : Dict InstanceCreateConfig → Store → Result Store
  unfolding include_in
  include_profiles [] s = ok s
  include_profiles ((name, profile) ∷ profiles) s =
      said (profile_error name) (include_in profile.config s) >>= include_profiles profiles

abbrev pub loaded : Text → CreateConfig → CreateConfig
loaded path c = record c { active = c.defaults; config_file = path }

abbrev pub include_all : Host → Text → CreateConfig × Store → Result (CreateConfig × Store)
include_all h path (c, s) = do
  s₁ ← said defaults_error (include_in h (dir_path path) c.defaults.config s)
  s₂ ← include_profiles h (dir_path path) c.profiles s₁
  ok (loaded path c, s₂)

unfoldable pub load_create_config : Host → Text → Store → Result (CreateConfig × Store)
unfolding include_in include_profiles dir_path
load_create_config h path s = do
  data_read ← h.read_file path
  decoded ← h.unmarshal data_read s
  include_all h path decoded

-- A relative path is skipped where there is no working directory.
abbrev pub absolute : Result Text → Text → Option Text
absolute cwd p =
    if is_abs p then some (join_path (p ∷ codes "create-config.yaml" ∷ [])) else elim cwd [
      | ok d ↦ some (join_path (d ∷ p ∷ codes "create-config.yaml" ∷ []))
      | err m ↦ none
    ]

abbrev pub prepend_some : Option Text → List Text → List Text
prepend_some none ps = ps
prepend_some (some p) ps = p ∷ ps

unfoldable pub absolute_paths : Result Text → List Text → List Text
unfolding join_path
absolute_paths cwd [] = []
absolute_paths cwd (p ∷ ps) = prepend_some (absolute cwd p) (absolute_paths cwd ps)

-- The last error stands in the message, `<nil>` where there is none.
abbrev pub or_next :
    Result (CreateConfig × Store)
    → (Text → Result (CreateConfig × Store))
    → Result (CreateConfig × Store)
or_next (ok r) rest = ok r
or_next (err m) rest = rest m

unfoldable pub try_paths : Host → Store → List Text → Text → Result (CreateConfig × Store)
unfolding load_create_config
try_paths h s [] last_err = err (codes "no instance create config found: " ++ last_err)
try_paths h s (p ∷ ps) last_err = or_next (load_create_config h p s) (try_paths h s ps)

unfoldable pub load_create_config_with_fallback :
    Host → List Text → Store → Result (CreateConfig × Store)
unfolding absolute_paths try_paths
load_create_config_with_fallback h paths s =
    try_paths h s (absolute_paths h.getwd paths) (codes "<nil>")
