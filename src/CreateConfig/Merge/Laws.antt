-- ===== src/CreateConfig/Merge/Laws.antt =====
-- The merge against its specification: the plain fields, the entries of the config maps, the devices,
-- and what happens to the maps of the receiver's defaults.
use ssh2incus.Base.{◌≤◌, All, ℕ, ◌≡◌, ◌≢◌, ◌<◌, refl, ◌∙◌, Option, none, some, List, [], ◌∷◌, arith}
use ssh2incus.Base.Text.{Text}
use ssh2incus.Base.Dict.{Dict, lookup, lookup-insert, given_or, lookup-write_all, lookup-empty}
use ssh2incus.CreateConfig.{InstanceCreateConfig}
use ssh2incus.CreateConfig.Maps.{Store}
use ssh2incus.CreateConfig.Merge.{
  merge_profile, merge_config, merge_devices, merge_scalars, State, write_cloned,
}
use ssh2incus.CreateConfig.Merge.Spec.{last_given, entry, device, device_entry, given_device}

-- Each plain field of `r` is the last one that a profile gives, or else that of `result`.
pub record HasScalars (ps : List InstanceCreateConfig) (result r : InstanceCreateConfig)
    : Type 0 where
  pub image : r.image ≡ last_given (λ p. p.image) ps result.image
  pub memory : r.memory ≡ last_given (λ p. p.memory) ps result.memory
  pub cpu : r.cpu ≡ last_given (λ p. p.cpu) ps result.cpu
  pub disk : r.disk ≡ last_given (λ p. p.disk) ps result.disk
  pub ephemeral : r.ephemeral ≡ last_given (λ p. p.ephemeral) ps result.ephemeral
  pub vm : r.vm ≡ last_given (λ p. p.vm) ps result.vm

-- The addresses of the profile's maps are in use, and the result does not share them.
abbrev pub IsApart : Store → Option ℕ → Option ℕ → Type 0
IsApart s own none = Unit
IsApart s own (some a) = (a < s.next) × (own ≢ some a)

entry-merge_config :
    (from own : Option ℕ) (result : InstanceCreateConfig) (s : Store) (k : Text)
    → result.config ≡ own
    → IsApart s own from
    → entry (merge_config from (result, s)).1 (merge_config from (result, s)).0.config k
      ≡ given_or (entry s from k) (entry s own k)
unfolding merge_config
entry-merge_config none own result s k e apart = ground arith
entry-merge_config (some q) none result s k e apart =
    ground (arith, lookup-write_all k (s.config_at q) [], lookup-empty {V = Text} k)
entry-merge_config (some q) (some d) result s k e apart =
    ground (arith, lookup-write_all k (s.config_at q) (s.config_at d))

entry-merge_devices :
    (from : Option ℕ) (result : InstanceCreateConfig) (s : Store) (k : Text)
    → entry (merge_devices from (result, s)).1 (merge_devices from (result, s)).0.config k
      ≡ entry s result.config k
unfolding merge_devices
entry-merge_devices none result s k = refl
entry-merge_devices (some q) result s k = ground arith

lookup-write_cloned :
    (k : Text) (from into : Dict (Option (Dict Text)))
    → lookup k (write_cloned from into) ≡ given_or (device k from) (lookup k into)
unfolding write_cloned device
lookup-write_cloned k [] into = refl
lookup-write_cloned k ((name, none) ∷ from) into = lookup-write_cloned k from into
lookup-write_cloned k ((name, some d) ∷ from) into =
    ground (
      arith,
      lookup-insert name k (some d) (write_cloned from into),
      lookup-write_cloned k from into,
    )

device-merge_devices :
    (from own : Option ℕ) (result : InstanceCreateConfig) (s : Store) (k : Text)
    → result.devices ≡ own
    → IsApart s own from
    → device_entry (merge_devices from (result, s)).1 (merge_devices from (result, s)).0.devices k
      ≡ given_or (given_device s from k) (device_entry s own k)
unfolding merge_devices
device-merge_devices none own result s k e apart = ground arith
device-merge_devices (some q) none result s k e apart =
    ground
      (arith, lookup-write_cloned k (s.devices_at q) [], lookup-empty {V = Option (Dict Text)} k)
device-merge_devices (some q) (some d) result s k e apart =
    ground (arith, lookup-write_cloned k (s.devices_at q) (s.devices_at d))

-- Merging the config maps leaves the devices alone.
merge_config-devices :
    (from : Option ℕ) (result : InstanceCreateConfig) (s : Store)
    → ((merge_config from (result, s)).0.devices ≡ result.devices)
      × ((merge_config from (result, s)).1.devices_at ≡ s.devices_at)
      × (s.next ≤ (merge_config from (result, s)).1.next)
unfolding merge_config
merge_config-devices none result s = ground arith
merge_config-devices (some q) result s = ground arith

device_entry-same :
    (s t : Store) (o : Option ℕ) (k : Text)
    → t.devices_at ≡ s.devices_at
    → (device_entry t o k ≡ device_entry s o k) × (given_device t o k ≡ given_device s o k)
device_entry-same s t none k e = (refl, refl)
device_entry-same s t (some a) k e = rw e (refl, refl)

IsApart-later :
    (s t : Store) (own o : Option ℕ) → s.next ≤ t.next → IsApart s own o → IsApart t own o
IsApart-later s t own none h apart = tt
IsApart-later s t own (some a) h apart = (omega (arith, apart.0), apart.1)

module _ (p result : InstanceCreateConfig) (s : Store) where
  abbrev pub after : State
  after = merge_profile p (result, s)

  pub scalars-after : HasScalars (p ∷ []) result after.0
  unfolding merge_profile merge_scalars merge_config merge_devices last_given
  scalars-after = ground arith

  pub entry-after :
      (k : Text)
      → IsApart s result.config p.config
      → entry after.1 after.0.config k ≡ given_or (entry s p.config k) (entry s result.config k)
  unfolding merge_profile merge_scalars
  entry-after k apart =
      let mid = merge_config p.config (merge_scalars p result, s) in
      entry-merge_devices p.devices mid.0 mid.1 k
      ∙ entry-merge_config p.config result.config (merge_scalars p result) s k refl apart

  pub device-after :
      (k : Text)
      → IsApart s result.devices p.devices
      → device_entry after.1 after.0.devices k
        ≡ given_or (given_device s p.devices k) (device_entry s result.devices k)
  unfolding merge_profile merge_scalars
  device-after k apart =
      let mid = merge_config p.config (merge_scalars p result, s) in
      let (own, devices, later) = merge_config-devices p.config (merge_scalars p result) s in
      let apart' : IsApart mid.1 result.devices p.devices =
        IsApart-later s mid.1 result.devices p.devices later apart in
      device-merge_devices p.devices result.devices mid.0 mid.1 k own apart'
      ∙ rw
          (
            (device_entry-same s mid.1 p.devices k devices).1,
            (device_entry-same s mid.1 result.devices k devices).0,
          )
          refl

  kept_devices-after :
      (a : ℕ)
      → IsApart s result.devices (some a)
      → (after.1.devices_at a ≡ s.devices_at a) × IsApart after.1 after.0.devices (some a)
  unfolding merge_profile merge_scalars merge_config merge_devices
  kept_devices-after a apart = ground arith

  kept-after :
      (a : ℕ)
      → IsApart s result.config (some a)
      → (after.1.config_at a ≡ s.config_at a) × IsApart after.1 after.0.config (some a)
  unfolding merge_profile merge_scalars merge_config merge_devices
  kept-after a apart = ground arith

-- The store holds the maps of every profile, and those of `own` are none of them.
abbrev pub IsSeparate : Store → InstanceCreateConfig → List InstanceCreateConfig → Type 0
IsSeparate s own ps = All (λ p. IsApart s own.config p.config × IsApart s own.devices p.devices) ps

-- Merging one profile keeps the maps of the others, and keeps them apart.
keeps_IsApart :
    (p result : InstanceCreateConfig) (s : Store) (o : Option ℕ)
    → IsApart s result.config o
    → IsApart (after p result s).1 (after p result s).0.config o
keeps_IsApart p result s none apart = tt
keeps_IsApart p result s (some a) apart = (kept-after p result s a apart).1

keeps_devices_IsApart :
    (p result : InstanceCreateConfig) (s : Store) (o : Option ℕ)
    → IsApart s result.devices o
    → IsApart (after p result s).1 (after p result s).0.devices o
keeps_devices_IsApart p result s none apart = tt
keeps_devices_IsApart p result s (some a) apart = (kept_devices-after p result s a apart).1

keeps_device :
    (p result : InstanceCreateConfig) (s : Store) (o : Option ℕ) (k : Text)
    → IsApart s result.devices o
    → given_device (after p result s).1 o k ≡ given_device s o k
keeps_device p result s none k apart = refl
keeps_device p result s (some a) k apart = rw ((kept_devices-after p result s a apart).0)

keeps_entry :
    (p result : InstanceCreateConfig) (s : Store) (o : Option ℕ) (k : Text)
    → IsApart s result.config o
    → entry (after p result s).1 o k ≡ entry s o k
keeps_entry p result s none k apart = refl
keeps_entry p result s (some a) k apart = rw ((kept-after p result s a apart).0)

pub keeps_IsSeparate :
    (p result : InstanceCreateConfig) (s : Store) (ps : List InstanceCreateConfig)
    → IsSeparate s result ps
    → IsSeparate (after p result s).1 (after p result s).0 ps
keeps_IsSeparate p result s [] h = tt
keeps_IsSeparate p result s (q ∷ ps) ((h, k), hs) = (
  (keeps_IsApart p result s q.config h, keeps_devices_IsApart p result s q.devices k),
  keeps_IsSeparate p result s ps hs,
)

-- The entry under `k` that the last profile with that key gives, or else `old`.
abbrev pub last_entry : Store → Text → List InstanceCreateConfig → Option Text → Option Text
last_entry s k ps old = last_given (λ p. entry s p.config k) ps old

pub last_entry-after :
    (p result : InstanceCreateConfig) (s : Store) (k : Text) (ps : List InstanceCreateConfig)
    (old : Option Text)
    → IsSeparate s result ps
    → last_entry (after p result s).1 k ps old ≡ last_entry s k ps old
unfolding last_given
last_entry-after p result s k [] old h = refl
last_entry-after p result s k (q ∷ ps) old ((h, d), hs) =
    rw (keeps_entry p result s q.config k h) (last_entry-after p result s k ps _ hs)

-- The device under `k` that the last profile with one that is not nil gives, or else `old`.
abbrev pub last_device :
    Store
    → Text
    → List InstanceCreateConfig
    → Option (Option (Dict Text))
    → Option (Option (Dict Text))
last_device s k ps old = last_given (λ p. given_device s p.devices k) ps old

pub last_device-after :
    (p result : InstanceCreateConfig) (s : Store) (k : Text) (ps : List InstanceCreateConfig)
    (old : Option (Option (Dict Text)))
    → IsSeparate s result ps
    → last_device (after p result s).1 k ps old ≡ last_device s k ps old
unfolding last_given
last_device-after p result s k [] old h = refl
last_device-after p result s k (q ∷ ps) old ((h, d), hs) =
    rw (keeps_device p result s q.devices k d) (last_device-after p result s k ps _ hs)
