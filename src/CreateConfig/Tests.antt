-- ===== src/CreateConfig/Tests.antt =====
-- A create config with defaults and one profile that both have a config map.
use ssh2incus.Base.{◌≡◌, refl, none, some, List, [], ◌∷◌, ◌==◌, if◌then◌else◌, arith}
use ssh2incus.Base.Text.{Text, codes, text_eq}
use ssh2incus.Base.Dict.{lookup}
use ssh2incus.CreateConfig.{InstanceCreateConfig, zero_config, CreateConfig}
use ssh2incus.CreateConfig.Maps.{Store}
use ssh2incus.CreateConfig.Merge.{apply_profiles}
use ssh2incus.CreateConfig.Merge.Spec.{select, selected}
use ssh2incus.CreateConfig.Merge.Laws.{IsSeparate}
use ssh2incus.CreateConfig.Merge.Loop.{IsMerge}
use ssh2incus.CreateConfig.Profiles.{apply_profiles-IsMerge}

abbrev pub small : InstanceCreateConfig
small = record zero_config { memory = some (codes "1"); config = some 1; devices = some 1 }

abbrev pub test_config : CreateConfig
test_config = record {
  version = [];
  defaults = record zero_config { image = some (codes "alpine"); config = some 0 };
  profiles = (codes "small", small) ∷ [];
  active = zero_config;
  config_file = [];
}

-- The map at 0 belongs to the defaults, and the one at 1 to the profile.
abbrev pub test_store : Store
test_store = record {
  config_at = λ a. if a == 1 then (codes "limits.cpu", codes "1") ∷ [] else [];
  devices_at = λ a. if a == 1 then (codes "eth0", some []) ∷ (codes "eth1", none) ∷ [] else [];
  next = 2;
}

abbrev pub names : List Text
names = codes "small" ∷ []

chosen : select test_config.profiles names ≡ selected (small ∷ [])
unfolding select lookup text_eq
chosen = refl

apart : IsSeparate test_store test_config.defaults (small ∷ [])
apart = (((omega arith, λ e. ground arith), (omega arith, λ e. ground arith)), tt)

apply_profiles-IsMerge_example :
    (r : InstanceCreateConfig) × (s' : Store) × (apply_profiles test_config names test_store
      ≡ ((record test_config { active = r }, none), s'))
    × IsMerge (small ∷ []) test_config.defaults test_store r s'
apply_profiles-IsMerge_example =
    apply_profiles-IsMerge test_config names test_store (small ∷ []) chosen apart
