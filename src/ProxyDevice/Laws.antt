-- ===== src/ProxyDevice/Laws.antt =====
-- What a client relies on of Incus, and what a device's addition and removal come to.
use ssh2incus.Base.{
  ℕ, ◌≡◌, ◌≢◌, refl, sym, ap, ◌∙◌, ◌⊎◌, inl, inr, Bool, true, false, Option, none, some, [], ◌∷◌,
  ◌++◌, arith, Bool-cases,
}
use ssh2incus.Base.Result.{Result, ok, err}
use ssh2incus.Base.Text.{Text, codes, text_eq, is_some}
use ssh2incus.Base.Text.Laws.{text_eq_iff}
use ssh2incus.Base.Dict.{Dict, lookup, insert}
use ssh2incus.Base.Text.Decimal.{itoa}
use ssh2incus.Incus.{default_project}
use ssh2incus.Incus.Project.{IsSynced}
use ssh2incus.ProxyDevice.{
  Instance, Incus, World, M, after_step, fail_if, use_named, use_project, ask_instance, updated,
  update,
}
use ssh2incus.ProxyDevice.Methods.{add_to, own_instance, name_port_by, set_source}

-- An update that succeeds is seen, an update changes no other instance, and projects and instances
-- answer to the names that they are asked by.
pub record IsIncus {S : Type 0} (i : Incus S) : Type 0 where
  pub project_name : (s : S) (p n : Text) → i.get_project s p ≡ ok n → n ≡ p
  pub instance_name :
      (s : S) (p n etag : Text) (inst : Instance)
      → i.get_instance s p n ≡ ok (inst, etag)
      → inst.name ≡ n
  pub updated_instance :
      (s s' : S) (p n etag : Text) (devices : Dict (Dict Text))
      → i.update_instance s p n devices etag ≡ (ok tt, s')
      → (etag' : Text) × (i.get_instance s' p n
          ≡ ok (record { name = n; devices = devices }, etag'))
  pub other_instance :
      (s : S) (p n etag q m : Text) (devices : Dict (Dict Text))
      → (p ≢ q) ⊎ (n ≢ m)
      → i.get_instance (i.update_instance s p n devices etag).1 q m ≡ i.get_instance s q m

module _ {S : Type 0} where
  -- A chain that succeeds takes each of its steps.
  pub after_step_ok :
      {A B : Type 0} (f : A → M S B) (t : Result A × World S) (b : B) (w' : World S)
      → after_step f t ≡ (ok b, w')
      → (a : A) × (v : World S) × (t ≡ (ok a, v)) × (f a v ≡ (ok b, w'))
  after_step_ok f (ok a, v) b w' h = (a, v, refl, h)
  after_step_ok f (err m, v) b w' h = absurd (err-ne-ok m b v w' h)
    where
      err-ne-ok :
          {B : Type 0} (m : Text) (b : B) (v w' : World S)
          → ◌≡◌ {A = Result B × World S} (err m, v) (ok b, w')
          → ⊥
      err-ne-ok m b v w' h = cc

  pub same_world :
      {A : Type 0} (a b : A) (v w : World S)
      → ◌≡◌ {A = Result A × World S} (ok a, v) (ok b, w)
      → (a ≡ b) × (v ≡ w)
  same_world a b v w h = (cc, cc)

  pub fail_if_ok :
      (b : Bool) (m : Text) (a : Unit {0}) (w v : World S)
      → fail_if b m w ≡ (ok a, v)
      → (b ≡ false) × (v ≡ w)
  fail_if_ok true m a w v h = cc
  fail_if_ok false m a w v h = (refl, ground arith)

default_project-ne-nil : (p : Text) → default_project p ≢ []
default_project-ne-nil [] e = cc
default_project-ne-nil (c ∷ p) e = cc

module _ {S : Type 0} (i : Incus S) (laws : IsIncus i) where
  abbrev pub in_project : Text → World S → World S
  in_project p w = record w {
    device = record w.device { client = record { project = p; used = p } };
  }

  use_named_ok :
      (p : Text) (w v : World S) (r : Result Text) (a : Unit {0})
      → i.get_project w.server p ≡ r
      → use_named i w r ≡ (ok a, v)
      → v ≡ in_project p w
  use_named_ok p w v (err m) a e h = cc
  use_named_ok p w v (ok n) a e h = ground (arith, laws.project_name w.server p n e)

  already_in :
      (p : Text) (w : World S)
      → w.device.client.project ≡ p
      → w.device.client.used ≡ p
      → w ≡ in_project p w
  already_in p w a b = ground arith

  used_of :
      (p : Text) (w : World S)
      → IsSynced w.device.client
      → default_project p ≡ w.device.client.project
      → w.device.client.used ≡ default_project p
  used_of p w (inl synced) e = sym (e ∙ synced)
  used_of p w (inr fresh) e = absurd (default_project-ne-nil p (e ∙ fresh))

  pub use_project_ok :
      (p : Text) (w v : World S) (a : Unit {0})
      → IsSynced w.device.client
      → use_project i p w ≡ (ok a, v)
      → v ≡ in_project (default_project p) w
  unfolding use_project
  use_project_ok p w v a synced h =
      elim (Bool-cases (text_eq (default_project p) w.device.client.project)) [
        | inl same ↦
            let e = (text_eq_iff (default_project p) w.device.client.project).0 same in
            let (a', there) = same_world tt a w v (rw same at h) in
            sym there ∙ already_in (default_project p) w (sym e) (used_of p w synced e)
        | inr other ↦
            use_named_ok (default_project p) w v (i.get_project w.server (default_project p)) a refl
              (rw other at h)
      ]

  pub own_instance_ok :
      (w v : World S) (it : Instance × Text)
      → IsSynced w.device.client
      → own_instance i w ≡ (ok it, v)
      → (v ≡ in_project (default_project w.device.project) w)
        × (i.get_instance w.server (default_project w.device.project) w.device.instance ≡ ok it)
  own_instance_ok w v it synced h =
      let (a, u, used, asked) = after_step_ok _ (use_project i w.device.project w) it v h in
      let e = use_project_ok w.device.project w u a synced used in
      let asked' : ask_instance i w.device.instance
            (in_project (default_project w.device.project) w)
          ≡ (ok it, v) =
        rw e at asked in
      (sym (ap (λ t. t.1) asked'), ap (λ t. t.0) asked')

  pub set_source_ok :
      (r : Result Text) (w v : World S) (a : Unit {0})
      → set_source i r w ≡ (ok a, v)
      → (source : Text) × (v ≡ record w { device = record w.device { source = source } })
  set_source_ok (err m) w v a h = cc
  set_source_ok (ok source) w v a h = (source, ground arith)

  pub name_port_by_ok :
      (kind : Text) (ln : Option ℕ) (r : Result ℕ) (w v : World S) (a : Unit {0})
      → name_port_by i kind ln r w ≡ (ok a, v)
      → (name : Text) × (to : Text) × (v ≡ record w {
        device = record w.device { device_name = name; target = to; listener = ln };
      })
  name_port_by_ok kind ln (err m) w v a h = cc
  name_port_by_ok kind ln (ok n) w v a h =
      (kind ++ itoa n, codes "127.0.0.1:" ++ itoa n, ground arith)

  -- What the addition of a device to the instance `it` leaves.
  abbrev pub IsAddedTo : Dict Text → Instance → Text → World S → World S → Type 0
  IsAddedTo dev inst n w v =
      (v.device ≡ w.device)
      × (lookup w.device.device_name inst.devices ≡ none)
      × ((etag : Text) × (i.get_instance v.server w.device.client.used n
            ≡ ok (
              record { name = n; devices = insert w.device.device_name dev inst.devices },
              etag,
            )))

  pub updated_inv :
      (w : World S) (t : Result (Unit {0}) × S) (a : Unit {0}) (v : World S)
      → updated i w t ≡ (ok a, v)
      → (s : S) × (t ≡ (ok tt, s)) × (v ≡ record w { server = s })
  updated_inv w (ok b, s) a v h = (s, refl, sym (same_world b a (record w { server = s }) v h).1)
  updated_inv w (err m, s) a v h = cc

  none_of : {A : Type 0} (o : Option A) → is_some o ≡ false → o ≡ none
  none_of none h = refl
  none_of (some x) h = cc

  updated_ok :
      (n etag : Text) (devices : Dict (Dict Text)) (w v : World S) (a : Unit {0})
      → update i n devices etag w ≡ (ok a, v)
      → (v.device ≡ w.device)
        × ((etag' : Text) × (i.get_instance v.server w.device.client.used n
              ≡ ok (record { name = n; devices = devices }, etag')))
  updated_ok n etag devices w v a h =
      let (s, e, same) =
        updated_inv w (i.update_instance w.server w.device.client.used n devices etag) a v h in
      rw same (refl, laws.updated_instance w.server s w.device.client.used n etag devices e)

  pub add_to_ok :
      (dev : Dict Text) (inst : Instance) (etag n : Text) (w v : World S) (a : Unit {0})
      → i.get_instance w.server w.device.client.used n ≡ ok (inst, etag)
      → add_to i dev (inst, etag) w ≡ (ok a, v)
      → IsAddedTo dev inst n w v
  add_to_ok dev inst etag n w v a asked h =
      let (b, u, free, updating) =
        after_step_ok _ (fail_if (is_some (lookup w.device.device_name inst.devices)) _ w) a v h in
      let (none_there, same) = fail_if_ok _ _ b w u free in
      let update' : update i n (insert w.device.device_name dev inst.devices) etag w ≡ (ok a, v) =
        rw (same, laws.instance_name w.server w.device.client.used n etag inst asked) at updating in
      let (kept, seen) =
        updated_ok n etag (insert w.device.device_name dev inst.devices) w v a update' in
      (kept, none_of (lookup w.device.device_name inst.devices) none_there, seen)
