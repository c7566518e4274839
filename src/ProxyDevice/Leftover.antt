-- ===== src/ProxyDevice/Leftover.antt =====
-- server/device-registry.go: cleanLeftoverProxyDevices, which runs when the server starts, and
-- DeleteInstanceDevice of pkg/incus/instance.go. The new client is in the project `default`.
pub mod Cleaned
pub mod Remaining
use ssh2incus.Base.{not, Option, none, some, List, [], ◌∷◌, ◌++◌, if◌then◌else◌}
use ssh2incus.Base.Result.{Result, ok, err}
use ssh2incus.Base.Text.{Text, codes, cut_prefix, has_prefix}
use ssh2incus.Base.Dict.{Dict, lookup, delete}
use ssh2incus.ProxyDevice.{Instance, Incus, Event, removed_all, executed}
use ssh2incus.ProxyDevice.Methods.{dir, field, exec_result}

-- An instance as it is listed.
pub record Listed : Type 0 where
  pub project : Text
  pub name : Text
  pub devices : Dict (Dict Text)

pub record Host (S : Type 0) : Type 0 where
  pub server : S
  pub events : List Event

abbrev pub prefix : Text
prefix = codes "proxy"

module _ {S : Type 0} (i : Incus S) where
  abbrev pub add_event : Event → Host S → Host S
  add_event e w = record w { events = w.events ++ e ∷ [] }

  abbrev pub remove_source_at : Option Text → Host S → Host S
  remove_source_at none w = w
  remove_source_at (some source) w = add_event (removed_all (dir source)) w

  -- The host's directory of a socket is removed.
  unfoldable pub remove_source : Dict Text → Host S → Host S
  unfolding cut_prefix lookup dir
  remove_source device w =
      remove_source_at (cut_prefix (codes "unix:") (field (codes "connect") (some device))) w

  abbrev pub remove_target_at : Text → Option Text → Host S → Result (Unit {0}) × Host S
  remove_target_at name none w = (ok tt, w)
  remove_target_at name (some target) w = (
    exec_result i (i.exec w.server (codes "default") name (codes "rm -f " ++ target)),
    add_event (executed name (codes "rm -f " ++ target)) w,
  )

  -- The socket in the instance is removed.
  unfoldable pub remove_target : Text → Dict Text → Host S → Result (Unit {0}) × Host S
  unfolding cut_prefix lookup
  remove_target name device w =
      remove_target_at name (cut_prefix (codes "unix:") (field (codes "listen") (some device))) w

  abbrev pub clean_files :
      Text → Dict Text → Result (Unit {0}) × S → Host S → Result (Unit {0}) × Host S
  clean_files name device (err m, s) w = (err m, record w { server = s })
  clean_files name device (ok u, s) w =
      remove_target name device (remove_source device (record w { server = s }))

  abbrev pub delete_found :
      Text → Instance → Text → Option (Dict Text) → Host S → Result (Unit {0}) × Host S
  delete_found device_name inst etag none w = (err (codes "device does not exist"), w)
  delete_found device_name inst etag (some device) w =
      clean_files inst.name device
        (i.update_instance w.server (codes "default") inst.name (delete device_name inst.devices)
          etag)
        w

  abbrev pub delete_asked : Text → Result (Instance × Text) → Host S → Result (Unit {0}) × Host S
  delete_asked device_name (err m) w = (err (codes "failed to get instance: " ++ m), w)
  delete_asked device_name (ok (inst, etag)) w =
      delete_found device_name inst etag (lookup device_name inst.devices) w

  unfoldable pub delete_instance_device : Text → Text → Host S → Result (Unit {0}) × Host S
  unfolding has_prefix lookup delete remove_source remove_target
  delete_instance_device name device_name w =
      if not (has_prefix prefix device_name)
      then (ok tt, w)
      else delete_asked device_name (i.get_instance w.server (codes "default") name) w

  -- A device that cannot be deleted is skipped.
  unfoldable pub clean_device : Text → Text → Host S → Host S
  unfolding has_prefix delete_instance_device
  clean_device name device_name w =
      if not (has_prefix prefix device_name)
      then w
      else (delete_instance_device name device_name w).1

  unfoldable pub clean_devices : Text → Dict (Dict Text) → Host S → Host S
  unfolding clean_device
  clean_devices name [] w = w
  clean_devices name ((device_name, device) ∷ devices) w =
      clean_devices name devices (clean_device name device_name w)

  unfoldable pub clean_instances : List Listed → Host S → Host S
  unfolding clean_devices
  clean_instances [] w = w
  clean_instances (l ∷ ls) w = clean_instances ls (clean_devices l.name l.devices w)

  abbrev pub clean_listed : Result (List Listed) → Host S → Result (Unit {0}) × Host S
  clean_listed (err m) w = (err (codes "failed to get instances: " ++ m), w)
  clean_listed (ok ls) w = (ok tt, clean_instances ls w)

  abbrev pub clean_connected :
      Result (Unit {0}) → Result (List Listed) → Host S → Result (Unit {0}) × Host S
  clean_connected (err m) listed w = (err m, w)
  clean_connected (ok u) listed w = clean_listed listed w

  -- `listed` is the answer of GetInstancesAllProjects.
  unfoldable pub clean_leftover_proxy_devices :
      Result (List Listed) → Host S → Result (Unit {0}) × Host S
  unfolding clean_instances
  clean_leftover_proxy_devices listed w = clean_connected (i.connect w.server) listed w
