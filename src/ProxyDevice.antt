-- ===== src/ProxyDevice.antt =====
-- pkg/incus/proxy-device.go: devices of type `proxy` that are added to an instance and removed from it.
use ssh2incus.Base.{[], ℕ, Bool, true, false, Option, List, ◌∷◌, ◌++◌, if◌then◌else◌}
-- The operations run one after the other on a queue, so each is one step here. Incus is the interface
-- `Incus`; its update stands for UpdateInstance and the wait for its operation.
pub mod Methods
pub mod Laws
pub mod Added
pub mod Removal
pub mod Restored
pub mod Leftover
pub mod Tests
use ssh2incus.Base.Int.{ℤ}
use ssh2incus.Base.Result.{Result, ok, err}
use ssh2incus.Base.Text.{Text, codes, text_eq}
use ssh2incus.Base.Dict.{Dict}
use ssh2incus.Incus.{ClientState, default_project}

-- api.Instance, as far as it is read here.
pub record Instance : Type 0 where
  pub name : Text
  pub devices : Dict (Dict Text)

-- The server, with its state. `get_instance` gives the ETag too; `free_port` is the answer of
-- GetFreePort, `listen` that of net.Listen on a free port, `fresh_name` the time and the random text.
pub record Incus (S : Type 0) : Type 0 where
  pub connect : S → Result (Unit {0})
  pub get_project : S → Text → Result Text
  pub get_instance : S → Text → Text → Result (Instance × Text)
  pub update_instance : S → Text → Text → Dict (Dict Text) → Text → Result (Unit {0}) × S
  pub exec : S → Text → Text → Text → ℤ × Option Text
  pub fresh_name : S → Text
  pub free_port : S → Result ℕ
  pub listen : S → Result ℕ
  pub is_ip_address : Text → Bool
  pub lookup_host : Text → Result (List Text)

pub data Kind : Type 0 where
  unset : Kind
  socket : Kind
  port : Kind

-- `listener` is the port of the listener, `client` what the device's client remembers.
pub record ProxyDevice : Type 0 where
  pub client : ClientState
  pub project : Text
  pub instance : Text
  pub source : Text
  pub uid : ℤ
  pub gid : ℤ
  pub mode : Text
  pub device_name : Text
  pub target : Text
  pub typ : Kind
  pub listener : Option ℕ

-- What a removal does outside Incus.
pub data Event : Type 0 where
  removed_all : (path : Text) → Event
  executed : (instance cmd : Text) → Event
  closed_listener : ℕ → Event

unfoldable pub id : ProxyDevice → Text
id p = p.project ++ b'/' ∷ (p.instance ++ b'/' ∷ p.device_name)

-- The state of a method: the device, the server, and the events so far.
pub record World (S : Type 0) : Type 0 where
  pub device : ProxyDevice
  pub server : S
  pub events : List Event

abbrev pub M : Type 0 → Type 0 → Type 0
M S A = World S → Result A × World S

module _ {S : Type 0} where
  abbrev pub after_step : {A B : Type 0} → (A → M S B) → Result A × World S → Result B × World S
  after_step f (ok a, w) = f a w
  after_step f (err m, w) = (err m, w)

  infixl 10 ◌>>=◌ ◌>>◌
  abbrev pub ◌>>=◌ : {A B : Type 0} → M S A → (A → M S B) → M S B
  (m >>= f) w = after_step f (m w)

  abbrev pub ◌>>◌ : {A B : Type 0} → M S A → M S B → M S B
  m >> k = m >>= λ _. k

  abbrev pub set_device : (ProxyDevice → ProxyDevice) → M S (Unit {0})
  set_device f w = (ok tt, record w { device = f w.device })

  abbrev pub fail_if : Bool → Text → M S (Unit {0})
  fail_if true m w = (err m, w)
  fail_if false m w = (ok tt, w)

  abbrev pub target : M S Text
  target w = (ok w.device.target, w)

  abbrev pub emit : Event → M S (Unit {0})
  emit e w = (ok tt, record w { events = w.events ++ e ∷ [] })

  abbrev pub pure : {A : Type 0} → A → M S A
  pure a w = (ok a, w)

module _ {S : Type 0} (i : Incus S) where
  -- p.client.Connect gives the client a new server, which is in the project `default`; what the client
  -- remembers as its project stays.
  abbrev pub connected : World S → Result (Unit {0}) → Result (Unit {0}) × World S
  connected w (err m) = (err m, w)
  connected w (ok u) = (
    ok tt,
    record w {
      device = record w.device { client = record w.device.client { used = codes "default" } };
    },
  )

  abbrev pub connect : M S (Unit {0})
  connect w = connected w (i.connect w.server)

  abbrev pub use_named : World S → Result Text → Result (Unit {0}) × World S
  use_named w (err m) = (err m, w)
  use_named w (ok name) = (
    ok tt,
    record w { device = record w.device { client = record { project = name; used = name } } },
  )

  -- Client.UseProject
  unfoldable pub use_project : Text → M S (Unit {0})
  use_project project w =
      if text_eq (default_project project) w.device.client.project
      then (ok tt, w)
      else use_named w (i.get_project w.server (default_project project))

  -- p.client.srv.GetInstance
  abbrev pub ask_instance : Text → M S (Instance × Text)
  ask_instance name w = (i.get_instance w.server w.device.client.used name, w)

  -- p.client.GetInstance
  abbrev pub get_instance : Text → Text → M S (Instance × Text)
  get_instance project name = use_project project >> ask_instance name

  abbrev pub updated : World S → Result (Unit {0}) × S → Result (Unit {0}) × World S
  updated w (r, s) = (r, record w { server = s })

  abbrev pub update : Text → Dict (Dict Text) → Text → M S (Unit {0})
  update name devices etag w =
      updated w (i.update_instance w.server w.device.client.used name devices etag)
