-- ===== src/ProxyDevice/Removal.antt =====
-- The removal of a port, which looks for the instance in the project `default`.
use ssh2incus.Base.{
  ℕ, ◌≡◌, ◌≢◌, refl, sym, ap, ◌∙◌, ◌⊎◌, inl, inr, Bool, true, false, Option, none, some, [], ◌∷◌,
  Bool-cases,
}
use ssh2incus.Base.Result.{Result, ok, err}
use ssh2incus.Base.Text.{Text, codes, is_empty, is_some}
use ssh2incus.Base.Dict.{Dict, lookup, insert, delete, lookup-insert_self}
use ssh2incus.Incus.{default_project}
use ssh2incus.ProxyDevice.{
  Incus, World, Instance, after_step, fail_if, connected, pure, updated, use_project, ◌>>=◌, ◌>>◌,
}
use ssh2incus.ProxyDevice.Methods.{
  own_instance, remove_from, add_port, remove_port, remove_port_connected, close_listener,
}
use ssh2incus.ProxyDevice.Laws.{IsIncus}
use ssh2incus.Base.Text.Laws.{text_eq_of_eq}
use ssh2incus.Incus.Project.{IsSynced}
use ssh2incus.ProxyDevice.Added.{add_port-IsAdded}

is_empty_of_ne : (s : Text) → s ≢ [] → is_empty s ≡ false
is_empty_of_ne [] h = absurd (h refl)
is_empty_of_ne (c ∷ s) h = refl

module _ {S : Type 0} (i : Incus S) (laws : IsIncus i) where
  own_instance_already :
      (w : World S)
      → default_project w.device.project ≡ w.device.client.project
      → own_instance i w ≡ (i.get_instance w.server w.device.client.used w.device.instance, w)
  unfolding use_project
  own_instance_already w h =
      rw (text_eq_of_eq (default_project w.device.project) w.device.client.project h) refl

  close_listener-server :
      (ln : Option ℕ) (t : Result (Unit {0}) × World S)
      → ((close_listener i ln t).1.server ≡ t.1.server) × ((close_listener i ln t).0 ≡ t.0)
  close_listener-server none t = (refl, refl)
  close_listener-server (some n) (r, w) = (refl, refl)

  -- The world behind a new connection.
  abbrev pub reconnected : World S → World S
  reconnected w = record w {
    device = record w.device { client = record w.device.client { used = codes "default" } };
  }

  pub remove_port-connected :
      (w : World S)
      → i.connect w.server ≡ ok tt
      → remove_port i w ≡ remove_port_connected i (reconnected w)
  unfolding remove_port
  remove_port-connected w h = rw h refl

  -- The server is left alone, or updated once, in the project that the client's server uses.
  abbrev Touched : World S → S → Type 0
  Touched w s =
      (s ≡ w.server)
      ⊎ ((n : Text) × (devices : Dict (Dict Text)) × (etag : Text) × (s
            ≡ (i.update_instance w.server w.device.client.used n devices etag).1))

  pure-server :
      {A B : Type 0} (b : B) (t : Result A × World S)
      → (after_step (λ _. pure b) t).1.server ≡ t.1.server
  pure-server b (ok a, w) = refl
  pure-server b (err m, w) = refl

  updated-server : (w : World S) (t : Result (Unit {0}) × S) → (updated i w t).1.server ≡ t.1
  updated-server w (r, s) = refl

  remove_from-Touched :
      (it : Instance × Text) (w : World S) → Touched w (remove_from i it w).1.server
  remove_from-Touched (inst, etag) w =
      elim (Bool-cases (is_some (lookup w.device.device_name inst.devices))) [
        | inl there ↦
            let devices = delete w.device.device_name inst.devices in
            let t = i.update_instance w.server w.device.client.used inst.name devices etag in
            rw there (
              inr (
                inst.name,
                devices,
                etag,
                pure-server (lookup w.device.device_name inst.devices) (updated i w t)
                    ∙ updated-server w t,
              ))
        | inr missing ↦ rw missing (inl refl)
      ]

  asked-Touched :
      (w : World S) (r : Result (Instance × Text))
      → Touched w (after_step (λ it. remove_from i it >>= λ _. pure tt) (r, w)).1.server
  asked-Touched w (err m) = inl refl
  asked-Touched w (ok it) = rw (pure-server tt (remove_from i it w)) (remove_from-Touched it w)

  remove_port_connected-Touched :
      (w : World S)
      → default_project w.device.project ≡ w.device.client.project
      → Touched w (remove_port_connected i w).1.server
  remove_port_connected-Touched w h =
      rw ((close_listener-server w.device.listener _).0) (body (is_empty w.device.instance))
    where
      body :
          (b : Bool)
          → Touched w
              ((fail_if b (codes "instance name is empty")
                  >> (own_instance i >>= λ it. remove_from i it >>= λ _. pure tt))
                w).1.server
      body true = inl refl
      body false =
          rw (own_instance_already w h)
            (asked-Touched w (i.get_instance w.server w.device.client.used w.device.instance))

  -- An update in `default` leaves the instances of another project.
  Touched-elsewhere :
      (w : World S) (s : S) (q m : Text)
      → codes "default" ≢ q
      → Touched (reconnected w) s
      → i.get_instance s q m ≡ i.get_instance w.server q m
  Touched-elsewhere w s q m other (inl same) = ap (λ t. i.get_instance t q m) same
  Touched-elsewhere w s q m other (inr (n, devices, etag, e)) =
      ap (λ t. i.get_instance t q m) e
      ∙ laws.other_instance w.server (codes "default") n etag q m devices (inl other)

  connected-elsewhere :
      (w : World S) (q m : Text) (r : Result (Unit {0}))
      → codes "default" ≢ q
      → default_project w.device.project ≡ w.device.client.project
      → i.get_instance (after_step (λ _. remove_port_connected i) (connected i w r)).1.server q m
        ≡ i.get_instance w.server q m
  connected-elsewhere w q m (err e) other h = refl
  connected-elsewhere w q m (ok u) other h =
      Touched-elsewhere w _ q m other (remove_port_connected-Touched (reconnected w) h)

  -- A port that was added to an instance of another project than `default` stays: whatever Incus
  -- answers, RemovePort leaves the instance with the device that AddPort has added.
  pub remove_port-leftover :
      (w v : World S) (t : Text)
      → IsSynced w.device.client
      → codes "default" ≢ default_project w.device.project
      → add_port i w ≡ (ok t, v)
      → (inst : Instance) × (etag : Text) × (device : Dict Text) × (i.get_instance
            (remove_port i v).1.server
            (default_project w.device.project)
            w.device.instance
          ≡ ok (inst, etag))
        × (lookup v.device.device_name inst.devices ≡ some device)
  unfolding remove_port
  remove_port-leftover w v t synced other h =
      let d = add_port-IsAdded i laws w v t synced h in
      (
        record {
          name = w.device.instance;
          devices = insert v.device.device_name d.device d.before.devices;
        },
        d.etag',
        d.device,
        connected-elsewhere v (default_project w.device.project) w.device.instance
              (i.connect v.server) other
              (ap default_project d.project ∙ sym (ap (λ c. c.project) d.client))
            ∙ d.added,
        lookup-insert_self v.device.device_name d.device d.before.devices,
      )

  updated-pure :
      {B : Type 0} (b : B) (w : World S) (t : Result (Unit {0}) × S)
      → t.0 ≡ ok tt
      → after_step (λ _. pure b) (updated i w t) ≡ (ok b, record w { server = t.1 })
  updated-pure b w (ok u, s) h = refl
  updated-pure b w (err m, s) h = cc

  remove_from-found :
      (inst : Instance) (etag : Text) (device : Dict Text) (w : World S)
      → lookup w.device.device_name inst.devices ≡ some device
      → let t =
          i.update_instance w.server w.device.client.used inst.name
            (delete w.device.device_name inst.devices)
            etag in
        t.0 ≡ ok tt → remove_from i (inst, etag) w ≡ (ok (some device), record w { server = t.1 })
  remove_from-found inst etag device w found h = rw found (updated-pure (some device) w _ h)

  pub remove_port_connected-found :
      (inst : Instance) (etag : Text) (device : Dict Text) (w : World S)
      → default_project w.device.project ≡ w.device.client.project
      → w.device.instance ≢ []
      → i.get_instance w.server w.device.client.used w.device.instance ≡ ok (inst, etag)
      → lookup w.device.device_name inst.devices ≡ some device
      → let t =
          i.update_instance w.server w.device.client.used inst.name
            (delete w.device.device_name inst.devices)
            etag in
        t.0 ≡ ok tt
        → ((remove_port_connected i w).0 ≡ ok tt) × ((remove_port_connected i w).1.server ≡ t.1)
  remove_port_connected-found inst etag device w h some_name asked found updates =
      let body : ((fail_if (is_empty w.device.instance) (codes "instance name is empty")
              >> (own_instance i >>= λ it. remove_from i it >>= λ _. pure tt))
            w)
          ≡ (ok tt, record w { server = _ }) =
        rw
          (
            is_empty_of_ne w.device.instance some_name,
            own_instance_already w h,
            asked,
            remove_from-found inst etag device w found updates,
          )
          refl in
      let (server, result) = close_listener-server w.device.listener _ in
      (result ∙ ap (λ t. t.0) body, server ∙ ap (λ t. t.1.server) body)
