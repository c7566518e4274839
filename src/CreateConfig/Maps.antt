-- ===== src/CreateConfig/Maps.antt =====
-- The store of maps that create configs refer to: `make`, reads and writes at an address.
use ssh2incus.Base.{ℕ, suc, Option, [], ◌==◌, if◌then◌else◌}
use ssh2incus.Base.Text.{Text}
use ssh2incus.Base.Dict.{Dict}

-- A device's own map may be nil.
pub record Store : Type 0 where
  pub config_at : ℕ → Dict Text
  pub devices_at : ℕ → Dict (Option (Dict Text))
  pub next : ℕ

unfoldable pub update {ℓ} : {A : Type ℓ} → (ℕ → A) → ℕ → A → ℕ → A
update f a v b = if a == b then v else f b

-- make(map[string]string)
unfoldable pub make_config : Store → Store
unfolding update
make_config s = record s { config_at = update s.config_at s.next []; next = suc s.next }

-- make(map[string]map[string]string)
unfoldable pub make_devices : Store → Store
unfolding update
make_devices s = record s { devices_at = update s.devices_at s.next []; next = suc s.next }

unfoldable pub write_config : ℕ → Dict Text → Store → Store
unfolding update
write_config a m s = record s { config_at = update s.config_at a m }

unfoldable pub write_devices : ℕ → Dict (Option (Dict Text)) → Store → Store
unfolding update
write_devices a m s = record s { devices_at = update s.devices_at a m }
