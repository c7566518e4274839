-- ===== src/DeviceRegistry/Tests.antt =====
-- A registry of two devices, to which another goroutine adds a third.
use ssh2incus.Base.{ℕ, ◌≡◌, refl, false, some, [], ◌∷◌}
use ssh2incus.Base.Dict.{Dict, lookup}
use ssh2incus.Base.Text.{Text, text_eq}
use ssh2incus.DeviceRegistry.{Turn, added, shutdown_all_devices}
use ssh2incus.DeviceRegistry.Shutdown.{IsShut, IsCalm, shutdown_all_devices-IsShut}

abbrev id : ℕ → Text
id n = n ∷ []

abbrev registry : Dict ℕ
registry = (id 3, 3) ∷ (id 4, 4) ∷ []

abbrev turns : ℕ → Turn id
turns n = record { meanwhile = added 5 ∷ []; is_done = false }

calm : (n : ℕ) → IsCalm id (id 4) (turns n)
calm n = (refl, ((λ e. cc), tt))

registered : lookup (id 4) registry ≡ some 4
unfolding lookup text_eq
registered = refl

both : shutdown_all_devices id turns registry ≡ (3 ∷ 4 ∷ [], false)
unfolding shutdown_all_devices text_eq
both = refl

shutdown_all_devices-IsShut_example : IsShut id 4 (shutdown_all_devices id turns registry)
shutdown_all_devices-IsShut_example =
    shutdown_all_devices-IsShut id turns registry (id 4) 4 calm registered
