-- ===== src/CreateConfig.antt =====
-- server/create-config.go: defaults and profiles for new instances, and their merge. Go's maps are
-- references, and the merge copies the struct that holds them, so the maps live in a store here. The
-- inner map of a device is never written after it is made, and stands in the store as a value.
pub mod Maps
pub mod Merge
pub mod Profiles
pub mod Load
pub mod Tests
use ssh2incus.Base.{ℕ, Bool, true, false, Option, none, some, List, [], ◌∷◌, ◌==◌, if◌then◌else◌}
use ssh2incus.Base.Int.{ℤ, pos}
use ssh2incus.Base.Text.{Text, codes, is_empty, atoi_value}
use ssh2incus.Base.Dict.{Dict, lookup}
use Maps.{Store}

-- `config` and `devices` are addresses of maps in the store; `none` is a nil map.
pub record InstanceCreateConfig : Type 0 where
  pub image : Option Text
  pub memory : Option Text
  pub cpu : Option Text
  pub disk : Option Text
  pub ephemeral : Option Bool
  pub vm : Option Bool
  pub devices : Option ℕ
  pub config : Option ℕ

abbrev pub zero_config : InstanceCreateConfig
zero_config = record {
  image = none;
  memory = none;
  cpu = none;
  disk = none;
  ephemeral = none;
  vm = none;
  devices = none;
  config = none;
}

-- The field `config` of the Go struct is `active` here.
pub record CreateConfig : Type 0 where
  pub version : Text
  pub defaults : InstanceCreateConfig
  pub profiles : Dict InstanceCreateConfig
  pub active : InstanceCreateConfig
  pub config_file : Text

abbrev pub or_zero {ℓ} : {A : Type ℓ} → A → Option A → A
or_zero z none = z
or_zero z (some a) = a

abbrev pub number : Option Text → ℤ
number none = pos 0
number (some s) = atoi_value s

unfoldable pub image : CreateConfig → Text
image c = or_zero [] c.active.image

-- i, _ := strconv.Atoi(*p)
unfoldable pub memory : CreateConfig → ℤ
memory c = number c.active.memory

unfoldable pub cpu : CreateConfig → ℤ
cpu c = number c.active.cpu

unfoldable pub disk : CreateConfig → ℤ
disk c = number c.active.disk

unfoldable pub ephemeral : CreateConfig → Bool
ephemeral c = or_zero false c.active.ephemeral

unfoldable pub vm : CreateConfig → Bool
vm c = or_zero false c.active.vm

-- The contents of the map that Config returns, which is a new one where there was none.
unfoldable pub config : Store → CreateConfig → Dict Text
config s c = elim c.active.config [ none ↦ [] | some m ↦ s.config_at m ]

unfoldable pub devices : Store → CreateConfig → Dict (Option (Dict Text))
devices s c = elim c.active.devices [ none ↦ [] | some m ↦ s.devices_at m ]
