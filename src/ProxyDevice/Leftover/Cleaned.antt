-- ===== src/ProxyDevice/Leftover/Cleaned.antt =====
-- Which devices the cleaning leaves.
use ssh2incus.Base.{
  ◌≡◌, ◌≢◌, refl, sym, ap, ◌∙◌, ◌⊎◌, inl, inr, true, false, Option, none, some, [], ◌∷◌,
  if◌then◌else◌, arith, Bool-cases,
}
use ssh2incus.Base.Result.{Result, ok, err}
use ssh2incus.Base.Text.{Text, codes, text_eq, cut_prefix, has_prefix}
use ssh2incus.Base.Text.Laws.{text_eq_iff}
use ssh2incus.Base.Dict.{Dict, lookup, delete, lookup-delete}
use ssh2incus.ProxyDevice.{Instance, Incus}
use ssh2incus.ProxyDevice.Methods.{field}
use ssh2incus.ProxyDevice.Laws.{IsIncus}
use ssh2incus.ProxyDevice.Leftover.{
  Host, prefix, remove_source, remove_source_at, remove_target, remove_target_at, clean_files,
  delete_found, delete_asked, delete_instance_device, clean_device, clean_devices,
}
use mathlib.Core.Path.{subst}

abbrev pub View : Type 0
View = Text → Option (Dict Text)

-- A device is dropped from the view.
abbrev pub drop : Text → View → View
drop name v k = if text_eq name k then none else v k

-- The proxy devices of a list are dropped.
abbrev pub after : Dict (Dict Text) → View → View
after [] v = v
after ((x, d) ∷ ds) v = after ds (if has_prefix prefix x then drop x v else v)

module _ {S : Type 0} (i : Incus S) where
  -- The instance has exactly these devices.
  abbrev pub Shows : Text → Text → S → View → Type 0
  Shows p n s v =
      (inst : Instance) × (etag : Text) × (i.get_instance s p n ≡ ok (inst, etag))
      × ((k : Text) → lookup k inst.devices ≡ v k)

  -- Every update succeeds.
  abbrev pub Updates : Type 0
  Updates =
      (s : S) (p n etag : Text) (devices : Dict (Dict Text))
      → (i.update_instance s p n devices etag).0 ≡ ok tt

  remove_source_at-server :
      (o : Option Text) (w : Host S) → (remove_source_at i o w).server ≡ w.server
  remove_source_at-server none w = refl
  remove_source_at-server (some source) w = refl

  remove_target_at-server :
      (name : Text) (o : Option Text) (w : Host S)
      → (remove_target_at i name o w).1.server ≡ w.server
  remove_target_at-server name none w = refl
  remove_target_at-server name (some target) w = refl

  clean_files-server :
      (name : Text) (device : Dict Text) (t : Result (Unit {0}) × S) (w : Host S)
      → (clean_files i name device t w).1.server ≡ t.1
  unfolding remove_source remove_target
  clean_files-server name device (err m, s) w = refl
  clean_files-server name device (ok u, s) w =
      remove_target_at-server name
        (cut_prefix (codes "unix:") (field (codes "listen") (some device)))
        (remove_source i device (record w { server = s }))
      ∙ remove_source_at-server (cut_prefix (codes "unix:") (field (codes "connect") (some device)))
          (record w { server = s })

  delete_found-server :
      (x : Text) (inst : Instance) (etag : Text) (o : Option (Dict Text)) (w : Host S)
      → ((o ≡ none) × ((delete_found i x inst etag o w).1.server ≡ w.server))
        ⊎ ((delete_found i x inst etag o w).1.server
            ≡ (i.update_instance w.server
                (codes "default")
                inst.name
                (delete x inst.devices)
                etag).1)
  delete_found-server x inst etag none w = inl (refl, refl)
  delete_found-server x inst etag (some device) w = inr (clean_files-server inst.name device _ w)

module _ {S : Type 0} (i : Incus S) (laws : IsIncus i) (updates : Updates i) where
  updated_shows :
      (s : S) (n etag : Text) (inst : Instance) (x : Text)
      → inst.name ≡ n
      → (etag' : Text) × (i.get_instance
            (i.update_instance s (codes "default") inst.name (delete x inst.devices) etag).1
            (codes "default")
            n
          ≡ ok (record { name = n; devices = delete x inst.devices }, etag'))
  updated_shows s n etag inst x named = rw named (
      laws.updated_instance s _ (codes "default") n etag (delete x inst.devices)
        (result_pair _ (updates s (codes "default") n etag (delete x inst.devices))))
    where
      result_pair : (t : Result (Unit {0}) × S) → t.0 ≡ ok tt → t ≡ (ok tt, t.1)
      result_pair (r, s) e = ap (λ q. (q, s)) e

  -- Deleting a device drops it from its instance in the project `default`.
  clean_device-Shows :
      (n x : Text) (w : Host S) (v : View)
      → has_prefix prefix x ≡ true
      → Shows i (codes "default") n w.server v
      → Shows i (codes "default") n (clean_device i n x w).server (drop x v)
  unfolding clean_device delete_instance_device
  clean_device-Shows n x w v starts (inst, etag, got, shows) =
      rw (starts, got)
        (elim (delete_found-server i x inst etag (lookup x inst.devices) w) [
          | inl kept ↦
              let (absent, same) = kept in
              rw same
                (inst, etag, got, λ k. ground (arith, text_eq_iff x k, absent, shows k, shows x))
          | inr gone ↦
              let (etag', seen) =
                updated_shows w.server n etag inst x
                  (laws.instance_name w.server (codes "default") n etag inst got) in
              rw gone (
                record { name = n; devices = delete x inst.devices },
                etag',
                seen,
                λ k. ground (arith, lookup-delete x k inst.devices, shows k),
              )
        ])

  -- Another instance is seen as before.
  clean_device-elsewhere :
      (n x p m : Text) (w : Host S)
      → (codes "default" ≢ p) ⊎ (n ≢ m)
      → i.get_instance (clean_device i n x w).server p m ≡ i.get_instance w.server p m
  unfolding clean_device delete_instance_device
  clean_device-elsewhere n x p m w other = elim (Bool-cases (has_prefix prefix x)) [
    | inr kept ↦ rw kept refl
    | inl starts ↦ rw starts (asked (i.get_instance w.server (codes "default") n) refl)
  ]
    where
      asked :
          (r : Result (Instance × Text))
          → i.get_instance w.server (codes "default") n ≡ r
          → i.get_instance (delete_asked i x r w).1.server p m ≡ i.get_instance w.server p m
      asked (err m') e = refl
      asked (ok (inst, etag)) e =
          elim (delete_found-server i x inst etag (lookup x inst.devices) w) [
            | inl kept ↦ ap (λ s. i.get_instance s p m) kept.1
            | inr gone ↦
                ap (λ s. i.get_instance s p m) gone
                ∙ laws.other_instance w.server (codes "default") inst.name etag p m
                    (delete x inst.devices)
                    (rw (laws.instance_name w.server (codes "default") n etag inst e) other)
          ]

  pub clean_devices-elsewhere :
      (n p m : Text) (ds : Dict (Dict Text)) (w : Host S)
      → (codes "default" ≢ p) ⊎ (n ≢ m)
      → i.get_instance (clean_devices i n ds w).server p m ≡ i.get_instance w.server p m
  unfolding clean_devices
  clean_devices-elsewhere n p m [] w other = refl
  clean_devices-elsewhere n p m ((x, d) ∷ ds) w other =
      clean_devices-elsewhere n p m ds (clean_device i n x w) other
      ∙ clean_device-elsewhere n x p m w other

  clean_device-kept :
      (n x : Text) (w : Host S) → has_prefix prefix x ≡ false → clean_device i n x w ≡ w
  unfolding clean_device
  clean_device-kept n x w other = rw other refl

  pub clean_devices-Shows :
      (n : Text) (ds : Dict (Dict Text)) (w : Host S) (v : View)
      → Shows i (codes "default") n w.server v
      → Shows i (codes "default") n (clean_devices i n ds w).server (after ds v)
  unfolding clean_devices
  clean_devices-Shows n [] w v h = h
  clean_devices-Shows n ((x, d) ∷ ds) w v h = elim (Bool-cases (has_prefix prefix x)) [
    | inl starts ↦ rw starts (
        clean_devices-Shows n ds (clean_device i n x w) (drop x v)
          (clean_device-Shows n x w v starts h))
    | inr other ↦ rw other (
        subst (λ u. Shows i (codes "default") n (clean_devices i n ds u).server (after ds v))
          (sym (clean_device-kept n x w other)) (clean_devices-Shows n ds w v h))
  ]
