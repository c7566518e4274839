-- ===== src/CreateConfig/Merge.antt =====
-- server/create-config.go, MergeProfiles and ApplyProfiles. Both run the same loop over the names.
pub mod Spec
pub mod Laws
pub mod Loop
use ssh2incus.Base.{ℕ, Bool, Option, none, some, List, [], ◌∷◌, if◌then◌else◌}
use ssh2incus.Base.Text.{Text, is_empty}
use ssh2incus.Base.Dict.{Dict, lookup, insert, write_all, given_or}
use ssh2incus.CreateConfig.{InstanceCreateConfig, zero_config, CreateConfig}
use ssh2incus.CreateConfig.Maps.{Store, make_config, make_devices, write_config, write_devices}

-- if profile.F != nil { result.F = profile.F }
unfoldable pub merge_scalars : InstanceCreateConfig → InstanceCreateConfig → InstanceCreateConfig
merge_scalars profile result = record result {
  image = given_or profile.image result.image;
  ephemeral = given_or profile.ephemeral result.ephemeral;
  memory = given_or profile.memory result.memory;
  cpu = given_or profile.cpu result.cpu;
  disk = given_or profile.disk result.disk;
  vm = given_or profile.vm result.vm;
}

abbrev pub State : Type 0
State = InstanceCreateConfig × Store

-- The address of the map, which is made if it is nil.
abbrev with_config : Option ℕ → InstanceCreateConfig → Store → State
with_config none result s = (record result { config = some s.next }, make_config s)
with_config (some a) result s = (result, s)

abbrev copy_config : ℕ → State → State
copy_config from (result, s) = elim result.config [
  | none ↦ (result, s)
  | some into ↦ (result, write_config into (write_all (s.config_at from) (s.config_at into)) s)
]

unfoldable pub merge_config : Option ℕ → State → State
unfolding make_config write_config write_all
merge_config none st = st
merge_config (some from) (result, s) = copy_config from (with_config result.config result s)

-- A device whose map is nil is skipped; the clone of another is a new map with the same entries.
unfoldable pub write_cloned :
    Dict (Option (Dict Text)) → Dict (Option (Dict Text)) → Dict (Option (Dict Text))
write_cloned [] into = into
write_cloned ((name, none) ∷ from) into = write_cloned from into
write_cloned ((name, some device) ∷ from) into = insert name (some device) (write_cloned from into)

abbrev with_devices : Option ℕ → InstanceCreateConfig → Store → State
with_devices none result s = (record result { devices = some s.next }, make_devices s)
with_devices (some a) result s = (result, s)

abbrev copy_devices : ℕ → State → State
copy_devices from (result, s) = elim result.devices [
  | none ↦ (result, s)
  | some into ↦
      (result, write_devices into (write_cloned (s.devices_at from) (s.devices_at into)) s)
]

unfoldable pub merge_devices : Option ℕ → State → State
unfolding make_devices write_devices write_cloned
merge_devices none st = st
merge_devices (some from) (result, s) = copy_devices from (with_devices result.devices result s)

unfoldable pub merge_profile : InstanceCreateConfig → State → State
unfolding merge_scalars merge_config merge_devices
merge_profile profile (result, s) =
    merge_devices profile.devices (merge_config profile.config (merge_scalars profile result, s))

-- The loop ends with the merged config, or at the first name that no profile has. What was written
-- to the maps before stays written.
pub data Outcome : Type 0 where
  merged : InstanceCreateConfig → Outcome
  no_profile : (name : Text) (partial : InstanceCreateConfig) → Outcome

unfoldable pub merge_loop :
    Dict InstanceCreateConfig → List Text → InstanceCreateConfig → Store → Outcome × Store
merge_loop profiles [] result s = (merged result, s)
merge_loop profiles (name ∷ names) result s =
    let skipped = merge_loop profiles names result s in
    let merge = λ (profile : InstanceCreateConfig).
      let (result', s') = merge_profile profile (result, s) in
      merge_loop profiles names result' s' in
    if is_empty name then skipped else elim (lookup name profiles) [
      | none ↦ (no_profile name result, s)
      | some profile ↦ merge profile
    ]

-- The config beside the name in the error, if there is one.
abbrev merge_reply : Outcome → InstanceCreateConfig × Option Text
merge_reply (merged result) = (result, none)
merge_reply (no_profile name partial) = (zero_config, some name)

unfoldable pub merge_profiles :
    CreateConfig → List Text → Store → (InstanceCreateConfig × Option Text) × Store
unfolding merge_loop
merge_profiles c names s =
    let (outcome, s') = merge_loop c.profiles names c.defaults s in (merge_reply outcome, s')

-- The receiver keeps what was merged before an error.
abbrev apply_reply : Outcome → CreateConfig → CreateConfig × Option Text
apply_reply (merged result) c = (record c { active = result }, none)
apply_reply (no_profile name partial) c = (record c { active = partial }, some name)

unfoldable pub apply_profiles :
    CreateConfig → List Text → Store → (CreateConfig × Option Text) × Store
unfolding merge_loop
apply_profiles c names s =
    let (outcome, s') = merge_loop c.profiles names c.defaults s in (apply_reply outcome c, s')
