-- ===== src/DeviceRegistry.antt =====
-- pkg/util/devicereg/devicereg.go: the devices to clean up, by id. Other goroutines may change the
-- registry while ShutdownAllDevices runs: what they do before it looks at the next device is a turn.
pub mod Shutdown
pub mod Tests
use ssh2incus.Base.{
  ℕ, Bool, true, false, Option, none, some, List, [], ◌∷◌, length, if◌then◌else◌, ◌+◌,
}
use ssh2incus.Base.Dict.{Dict, lookup, insert, delete}
use ssh2incus.Base.Text.{Text}

-- The device's interface. Shutdown is an event here, its error is ignored.
module _ {D : Type 0} (id : D → Text) where
  unfoldable pub add_device : D → Dict D → Dict D
  unfolding insert
  add_device d r = insert (id d) d r

  abbrev pub remove_existing : Text → Option D → Dict D → Dict D × Bool
  remove_existing k (some d) r = (delete k r, true)
  remove_existing k none r = (r, false)

  unfoldable pub remove_device : D → Dict D → Dict D × Bool
  unfolding lookup delete
  remove_device d r = remove_existing (id d) (lookup (id d) r) r

  pub data Change : Type 0 where
    added : D → Change
    removed : D → Change

  abbrev pub changed_id : Change → Text
  changed_id (added d) = id d
  changed_id (removed d) = id d

  unfoldable pub change : Change → Dict D → Dict D
  unfolding add_device remove_device
  change (added d) r = add_device d r
  change (removed d) r = let (left, found) = remove_device d r in left

  unfoldable pub changes : List Change → Dict D → Dict D
  unfolding change
  changes [] r = r
  changes (c ∷ cs) r = changes cs (change c r)

  -- What happens before the context is asked and the device is looked up.
  pub record Turn : Type 0 where
    pub meanwhile : List Change
    pub is_done : Bool

  -- The devices that are shut down, in order, and whether the context ended the loop.
  abbrev pub shut : Option D → List D × Bool → List D × Bool
  shut (some d) (ds, ended) = (d ∷ ds, ended)
  shut none rest = rest

  unfoldable pub shutdown_each : (ℕ → Turn) → ℕ → List Text → Dict D → List D × Bool
  unfolding changes
  shutdown_each turns n [] r = ([], false)
  shutdown_each turns n (k ∷ ks) r =
      let now = changes (turns n).meanwhile r in
      let rest = shutdown_each turns (n + 1) ks now in
      if (turns n).is_done then ([], true) else shut (lookup k now) rest

  unfoldable pub keys : Dict D → List Text
  keys [] = []
  keys ((k, d) ∷ r) = k ∷ keys r

  -- The map's keys are visited in the order of the association list, which stands for any order.
  unfoldable pub shutdown_all_devices : (ℕ → Turn) → Dict D → List D × Bool
  unfolding keys shutdown_each
  shutdown_all_devices turns r = shutdown_each turns 0 (keys r) r

  unfoldable pub count : Dict D → ℕ
  count r = length r
