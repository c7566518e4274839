-- ===== src/ProxyDevice/Added.antt =====
-- What the addition of a port leaves.
use ssh2incus.Base.{◌≡◌, ap, none, ◌∙◌, sym}
use ssh2incus.Base.Result.{ok, Result}
use ssh2incus.Base.Text.{Text, codes}
use ssh2incus.Base.Dict.{Dict, lookup, insert}
use ssh2incus.Incus.{default_project}
use ssh2incus.Incus.Project.{IsSynced}
use ssh2incus.ProxyDevice.{Instance, Incus, port, World, ◌>>=◌, ◌>>◌, target}
use ssh2incus.ProxyDevice.Methods.{
  own_instance, name_port, fix_source, fixed_source, add_port_to, add_port, port_device,
}
use ssh2incus.ProxyDevice.Laws.{
  IsIncus, after_step_ok, in_project, own_instance_ok, set_source_ok, name_port_by_ok, add_to_ok,
}

module _ {S : Type 0} (i : Incus S) (laws : IsIncus i) where
  -- A device that was added: the instance had no device of its name, and has it now.
  pub record IsAdded (w v : World S) : Type 0 where
    pub client : v.device.client ≡ record {
      project = default_project w.device.project;
      used = default_project w.device.project;
    }
    pub project : v.device.project ≡ w.device.project
    pub instance : v.device.instance ≡ w.device.instance
    pub before : Instance
    pub device : Dict Text
    pub etag : Text
    pub etag' : Text
    pub found :
        i.get_instance w.server (default_project w.device.project) w.device.instance
        ≡ ok (before, etag)
    pub is_new : lookup v.device.device_name before.devices ≡ none
    pub added :
        i.get_instance v.server (default_project w.device.project) w.device.instance
        ≡ ok (
          record {
            name = w.device.instance;
            devices = insert v.device.device_name device before.devices;
          },
          etag',
        )

  abbrev found_with : Text → Dict Text → Instance → Text → Text → Result (Instance × Text)
  found_with n dev inst etag k = ok (record { name = n; devices = insert k dev inst.devices }, etag)

  kept-IsAdded :
      (w v : World S) (inst : Instance) (etag etag' : Text) (dev : Dict Text)
      → i.get_instance w.server (default_project w.device.project) w.device.instance
        ≡ ok (inst, etag)
      → v.device ≡ (in_project i laws (default_project w.device.project) w).device
      → lookup w.device.device_name inst.devices ≡ none
      → i.get_instance v.server (default_project w.device.project) w.device.instance
        ≡ found_with w.device.instance dev inst etag' w.device.device_name
      → IsAdded w v
  kept-IsAdded w v inst etag etag' dev asked kept free seen =
      let name : v.device.device_name ≡ w.device.device_name = ap (λ d. d.device_name) kept in
      record {
        client = ap (λ d. d.client) kept;
        project = ap (λ d. d.project) kept;
        instance = ap (λ d. d.instance) kept;
        before = inst;
        device = dev;
        etag = etag;
        etag' = etag';
        found = asked;
        is_new = ap (λ k. lookup k inst.devices) name ∙ free;
        added = seen ∙ ap (found_with w.device.instance dev inst etag') (sym name);
      }

  add_port_named_ok :
      (w v : World S) (t : Text)
      → IsSynced w.device.client
      → (own_instance i >>= λ it. add_port_to i it >> target) w ≡ (ok t, v)
      → IsAdded w v
  add_port_named_ok w v t synced h =
      let (it, u, asking, adding) = after_step_ok _ (own_instance i w) t v h in
      let (same, asked) = own_instance_ok i laws w u it synced asking in
      let (a, x, added, aiming) = after_step_ok _ (add_port_to i it u) t v adding in
      let ends : x ≡ v = ap (λ r. r.1) aiming in
      let q = default_project w.device.project in
      let added' : add_port_to i it (in_project i laws q w) ≡ (ok a, v) =
        rw (same, ends) at added in
      let (kept, free, (etag', seen)) =
        add_to_ok i laws (port_device w.device.source w.device.target (codes "host")) it.0 it.1
          w.device.instance (in_project i laws q w) v a asked added' in
      kept-IsAdded w v it.0 it.1 etag' (port_device w.device.source w.device.target (codes "host"))
        asked kept free seen

  -- A port that was added successfully is a new device of the instance.
  pub add_port-IsAdded :
      (w v : World S) (t : Text) → IsSynced w.device.client → add_port i w ≡ (ok t, v) → IsAdded w v
  unfolding add_port
  add_port-IsAdded w v t synced h =
      let w0 = record w { device = record w.device { typ = port } } in
      let (a, x, fixing, naming) = after_step_ok _ (fix_source i w0) t v h in
      let (source, fixed) = set_source_ok i laws (fixed_source i w.device.source) w0 x a fixing in
      let w1 = record w0 { device = record w0.device { source = source } } in
      let (b, y, named, adding) = after_step_ok _ (name_port i w1) t v (rw fixed at naming) in
      let (name, to, placed) =
        name_port_by_ok i laws (codes "proxy-port-") w.device.listener (i.free_port w.server) w1 y b
          named in
      let w2 = record w1 { device = record w1.device { device_name = name; target = to } } in
      let d = add_port_named_ok w2 v t synced (rw placed at adding) in
      record {
        client = d.client;
        project = d.project;
        instance = d.instance;
        before = d.before;
        device = d.device;
        etag = d.etag;
        etag' = d.etag';
        found = d.found;
        is_new = d.is_new;
        added = d.added;
      }
