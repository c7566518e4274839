-- ===== src/CreateConfig/Merge/Spec.antt =====
-- What a merge is to give, stated without the loop: the profiles that the names select, in order, and
-- for each setting the last of them that has it.
use ssh2incus.Base.{ℕ, Option, none, some, List, [], ◌∷◌, if◌then◌else◌}
use ssh2incus.Base.Text.{Text, is_empty, text_eq}
use ssh2incus.Base.Dict.{Dict, lookup, given_or}
use ssh2incus.CreateConfig.{InstanceCreateConfig}
use ssh2incus.CreateConfig.Maps.{Store}

pub data Selection : Type 0 where
  selected : List InstanceCreateConfig → Selection
  missing : Text → Selection

abbrev pub select_first : InstanceCreateConfig → Selection → Selection
select_first p (selected ps) = selected (p ∷ ps)
select_first p (missing name) = missing name

-- Empty names are skipped; the first name that no profile has is `missing`.
unfoldable pub select : Dict InstanceCreateConfig → List Text → Selection
select profiles [] = selected []
select profiles (name ∷ names) =
    let rest = select profiles names in
    if is_empty name
    then rest
    else elim (lookup name profiles) [ none ↦ missing name | some p ↦ select_first p rest ]

module _ {ℓ} {A : Type ℓ} where
  unfoldable pub last_given :
      (InstanceCreateConfig → Option A) → List InstanceCreateConfig → Option A → Option A
  last_given field [] old = old
  last_given field (p ∷ ps) old = last_given field ps (given_or (field p) old)

-- The entry that a config has under a key; a nil map has none.
abbrev pub entry : Store → Option ℕ → Text → Option Text
entry s none k = none
entry s (some a) k = lookup k (s.config_at a)

-- The same of devices.
abbrev pub device_entry : Store → Option ℕ → Text → Option (Option (Dict Text))
device_entry s none k = none
device_entry s (some a) k = lookup k (s.devices_at a)

-- The device that a map has under a name, where nil devices do not count.
unfoldable pub device : Text → Dict (Option (Dict Text)) → Option (Option (Dict Text))
device k [] = none
device k ((name, none) ∷ m) = device k m
device k ((name, some d) ∷ m) = if text_eq name k then some (some d) else device k m

abbrev pub given_device : Store → Option ℕ → Text → Option (Option (Dict Text))
given_device s none k = none
given_device s (some a) k = device k (s.devices_at a)
