-- ===== src/CreateConfig/Load/Tests.antt =====
-- A create config in a directory, with a file that its defaults include.
use ssh2incus.Base.{◌≡◌, refl, some, [], ◌∷◌, ◌==◌, if◌then◌else◌}
use ssh2incus.Base.Result.{ok, err, ok_injective}
use ssh2incus.Base.Text.{Text, codes, text_eq, cut_prefix, split, join}
use ssh2incus.Base.Text.Space.{trim_space}
use ssh2incus.CreateConfig.{CreateConfig, zero_config}
use ssh2incus.CreateConfig.Maps.{Store, write_config, update}
use ssh2incus.CreateConfig.Load.{
  Host, load_create_config, loaded, include_in, include_profiles, process_includes, included,
  include_of, include_path,
}
use ssh2incus.CreateConfig.Load.Includes.{
  MakesMaps, IsApart, AreApart, IsLoaded, load_create_config-IsLoaded,
}
use mathlib.Core.Path.{subst}
use ssh2incus.Base.Text.Path.{join_path, dir_path, up_to_slash, clean, add_elements, add_element}

-- Map 0 is that of the defaults, map 1 that of the profile.
abbrev start : Store
start = record { config_at = λ a. []; devices_at = λ a. []; next = 0 }

abbrev decoded : CreateConfig
decoded = record {
  version = [];
  defaults = record zero_config { config = some 0 };
  profiles = (codes "small", record zero_config { config = some 1 }) ∷ [];
  active = zero_config;
  config_file = [];
}

abbrev made : Store
made = record {
  config_at = λ a.
      if a == 0
      then (codes "user.user-data", codes " <@ init.yaml ") ∷ (codes "limits.cpu", codes "2") ∷ []
      else if a == 1
      then (codes "user.user-data", codes "!include /root/x.yaml") ∷ []
      else [];
  devices_at = λ a. [];
  next = 2;
}

abbrev path : Text
path = codes "/etc/ssh2incus/create-config.yaml"

-- The content of a file is its path; there is no config file in the working directory.
abbrev host : Host
host = record {
  read_file = λ p.
      if text_eq p (codes "/root/create-config.yaml") then err (codes "no such file") else ok p;
  stat = λ p. text_eq p (codes "/etc/ssh2incus/init.yaml");
  getwd = ok (codes "/root");
  unmarshal = λ text s. ok (decoded, made);
}

host-MakesMaps : MakesMaps host
host-MakesMaps text s t c e =
    let pair : ◌≡◌ {A = CreateConfig × Store} (decoded, made) (c, t) =
      ok_injective (decoded, made) (c, t) e in
    subst (λ x. IsApart x.0.defaults.config x.0.profiles × AreApart x.0.profiles) pair
      (((λ q. cc), tt), (tt, tt))

abbrev included_data : Store
included_data = record made {
  config_at =
      update
        (update made.config_at 0 (
          (codes "user.user-data", codes "/etc/ssh2incus/init.yaml")
          ∷ (codes "limits.cpu", codes "2")
          ∷ []))
        1 ((codes "user.user-data", codes "/root/x.yaml") ∷ []);
}

loads : load_create_config host path start ≡ ok (loaded path decoded, included_data)
unfolding load_create_config include_in include_profiles process_includes included include_of
    include_path trim_space cut_prefix join_path dir_path up_to_slash clean add_elements add_element
    text_eq split join write_config update
loads = refl

load_create_config-IsLoaded_example : IsLoaded host path start (loaded path decoded, included_data)
load_create_config-IsLoaded_example =
    load_create_config-IsLoaded host path start (loaded path decoded, included_data) host-MakesMaps
      loads
