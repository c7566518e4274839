-- ===== src/ProxyDevice/Restored.antt =====
-- Adding a port and removing it gives the instance's devices back, in the project `default`.
use ssh2incus.Base.{◌≡◌, ◌≢◌, sym, ap, ◌∙◌, []}
use ssh2incus.Base.Result.{Result, ok}
use ssh2incus.Base.Text.{Text, codes}
use ssh2incus.Base.Dict.{Dict, insert, delete, lookup-insert_self, delete-insert_new}
use ssh2incus.Incus.{default_project}
use ssh2incus.Incus.Project.{IsSynced}
use ssh2incus.ProxyDevice.{Instance, Incus, World}
use ssh2incus.ProxyDevice.Methods.{add_port, remove_port}
use ssh2incus.ProxyDevice.Laws.{IsIncus}
use ssh2incus.ProxyDevice.Added.{add_port-IsAdded}
use ssh2incus.ProxyDevice.Removal.{remove_port-connected, reconnected, remove_port_connected-found}

module _ {S : Type 0} (i : Incus S) (laws : IsIncus i) where
  pair_of : (t : Result (Unit {0}) × S) → t.0 ≡ ok tt → t ≡ (ok tt, t.1)
  pair_of (r, s) h = ap (λ x. (x, s)) h

  -- Where Incus is reached and its updates succeed, the removal of a port that was added to an instance
  -- of the project `default` succeeds, and leaves the instance with the devices that it had before.
  pub remove_port-restored :
      (w v : World S) (t : Text)
      → IsSynced w.device.client
      → default_project w.device.project ≡ codes "default"
      → w.device.instance ≢ []
      → ((s : S) → i.connect s ≡ ok tt)
      → ((s : S) (p n etag : Text) (devices : Dict (Dict Text))
          → (i.update_instance s p n devices etag).0 ≡ ok tt)
      → add_port i w ≡ (ok t, v)
      → (before : Instance) × (etag : Text) × (etag' : Text) × (i.get_instance w.server
            (codes "default")
            w.device.instance
          ≡ ok (before, etag))
        × ((remove_port i v).0 ≡ ok tt)
        × (i.get_instance (remove_port i v).1.server (codes "default") w.device.instance
            ≡ ok (record { name = w.device.instance; devices = before.devices }, etag'))
  remove_port-restored w v t synced default some_name connects updates h =
      let d = add_port-IsAdded i laws w v t synced h in
      let n = w.device.instance in
      let x = reconnected i laws v in
      let inst : Instance = record {
        name = n;
        devices = insert v.device.device_name d.device d.before.devices;
      } in
      let update =
        i.update_instance v.server (codes "default") n (delete v.device.device_name inst.devices)
          d.etag' in
      let (done, server) =
        remove_port_connected-found i laws inst d.etag' d.device x
          (ap default_project d.project ∙ sym (ap (λ c. c.project) d.client))
          (λ e. some_name (sym d.instance ∙ e))
          (ap (i.get_instance v.server (codes "default")) d.instance
            ∙ (ap (λ p. i.get_instance v.server p n) (sym default) ∙ d.added))
          (lookup-insert_self v.device.device_name d.device d.before.devices)
          (updates v.server (codes "default") n d.etag'
            (delete v.device.device_name inst.devices)) in
      let through = remove_port-connected i laws v (connects v.server) in
      let (etag'', seen) =
        laws.updated_instance v.server update.1 (codes "default") n d.etag'
          (delete v.device.device_name inst.devices)
          (pair_of update (
            updates v.server (codes "default") n d.etag'
              (delete v.device.device_name inst.devices))) in
      (
        d.before,
        d.etag,
        etag'',
        ap (λ p. i.get_instance w.server p n) (sym default) ∙ d.found,
        ap (λ r. r.0) through ∙ done,
        ap (λ s. i.get_instance s (codes "default") n) (ap (λ r. r.1.server) through ∙ server)
            ∙ (seen
                ∙ ap (λ ds. ok (record { name = n; devices = ds }, etag''))
                    (delete-insert_new v.device.device_name d.device d.before.devices d.is_new)),
      )
