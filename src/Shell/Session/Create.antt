-- ===== src/Shell/Session/Create.antt =====
-- The steps of a session that create an instance do what is allowed.
use ssh2incus.Base.{
  ℕ, zero, suc, ◌≡◌, refl, inl, Bool, true, false, not, Option, none, some, [], if◌then◌else◌,
  arith,
}
use ssh2incus.Base.Result.{Result, ok, err}
use ssh2incus.Base.Text.{Text, codes, text_eq, is_some, or_else}
use ssh2incus.LoginUser.{Login}
use ssh2incus.LoginUser.Valid.{InstanceUser}
use ssh2incus.CreateConfig.{
  CreateConfig, or_zero, number, image, memory, cpu, disk, ephemeral, vm, config, devices,
}
use ssh2incus.Base.Int.{ℤ}
use ssh2incus.CreateConfig.Maps.{Store}
use ssh2incus.CreateConfig.Merge.{apply_profiles}
use ssh2incus.Shell.{Request}
use ssh2incus.Shell.Create.{CreateInstanceParams, create_params, config_params, override}
use ssh2incus.Shell.Trace.{
  Event, Trace, ◌>>◌, emit, pure, Fits-bind, Fits-if, Fits-then, printed, asked_user, Yields,
  Yields-bind,
}
use ssh2incus.Shell.Session.{
  ShellWorld, ShellConfig, wait_for_user, wait_unless_root, create_with, create_instance,
  create_unless_found, ensure_instance, found, after_create, after_profiles,
}
use ssh2incus.Shell.Session.Allowed.{
  IsChosen, IsNumber, Holds, IsParams, IsCreation, IsAllowedEvent, Fine, Answered,
}

config-Holds : (s : Store) (c : CreateConfig) → Holds s.config_at c.active.config (config s c)
unfolding config
config-Holds s c = held c.active.config
  where
    held : (o : Option ℕ) → Holds s.config_at o (elim o [ none ↦ [] | some m ↦ s.config_at m ])
    held none = refl
    held (some m) = refl

devices-Holds : (s : Store) (c : CreateConfig) → Holds s.devices_at c.active.devices (devices s c)
unfolding devices
devices-Holds s c = held c.active.devices
  where
    held : (o : Option ℕ) → Holds s.devices_at o (elim o [ none ↦ [] | some m ↦ s.devices_at m ])
    held none = refl
    held (some m) = refl

or_else-IsChosen {ℓ} :
    {A : Type ℓ} (own c : Option A) (z : A) → IsChosen own c z (or_else own (or_zero z c))
or_else-IsChosen (some own) c z = refl
or_else-IsChosen none (some given) z = refl
or_else-IsChosen none none z = refl

or_else-IsNumber : (own : Option ℤ) (c : Option Text) → IsNumber own c (or_else own (number c))
or_else-IsNumber (some own) c = refl
or_else-IsNumber none (some given) = refl
or_else-IsNumber none none = refl

create_params-IsParams :
    (s : Store) (c : CreateConfig) (lu : Login) → IsParams s c.active lu (create_params s c lu)
unfolding create_params override config_params image memory cpu disk ephemeral vm
create_params-IsParams s c lu =
    let o = lu.create_config in
    record {
      name = refl;
      project = refl;
      image = or_else-IsChosen o.image c.active.image [];
      image_remote = refl;
      memory = or_else-IsNumber o.memory c.active.memory;
      cpu = or_else-IsNumber o.cpu c.active.cpu;
      disk = or_else-IsNumber o.disk c.active.disk;
      ephemeral = or_else-IsChosen o.ephemeral c.active.ephemeral false;
      nesting = or_else-IsChosen o.nesting none false;
      privileged = or_else-IsChosen o.privileged none false;
      vm = or_else-IsChosen o.vm c.active.vm false;
      init_only = refl;
      config = config-Holds s c;
      devices = devices-Holds s c;
    }

module _ (w : ShellWorld) (config : ShellConfig) (r : Request) (lu : Login) where
  abbrev Allowed : Event → Type 0
  Allowed = IsAllowedEvent w config r lu

  wait-Fine : (n i : ℕ) → Fine w config r lu (wait_for_user w config r lu n i)
  unfolding wait_for_user
  wait-Fine zero i = (tt, tt)
  wait-Fine (suc n) i = Fits-then Allowed _ _ refl tt (
      Fits-then Allowed _ _ refl tt (
        Fits-if Allowed (is_some (found (w.poll i))) _ _ (λ _. (tt, tt))
          (λ _. wait-Fine n (suc i))))

  wait_unless_root-Fine : Fine w config r lu (wait_unless_root w config r lu)
  unfolding wait_unless_root
  wait_unless_root-Fine =
      Fits-if Allowed (text_eq lu.instance_user (codes "root")) (pure tt)
        (wait_for_user w config r lu 20 0) (λ _. (tt, tt)) (λ _. wait-Fine 20 0)

  after_create-Fine : (a : Result (Unit {0})) → Fine w config r lu (after_create w config r lu a)
  after_create-Fine (err m) = ground arith
  after_create-Fine (ok u) = wait_unless_root-Fine

  create_with-Fine :
      (p : CreateInstanceParams)
      → (IsCreation w config r lu) p
      → Fine w config r lu (create_with w config r lu p)
  unfolding create_with
  create_with-Fine p c = Fits-then Allowed _ _ refl c (after_create-Fine (w.create_instance p))

  module _ (allowed : config.allow_create ≡ true) (asked : lu.create_instance ≡ true) where
    after_profiles-Fine :
        (c : CreateConfig) (a : (CreateConfig × Option Text) × Store)
        → w.create_config ≡ some c
        → found w.get_instance_user ≡ none
        → apply_profiles c lu.create_config.profiles w.store ≡ a
        → Fine w config r lu (after_profiles w config r lu a)
    after_profiles-Fine c ((c', some name), s) l m e = ground arith
    after_profiles-Fine c ((c', none), s) l m e = create_with-Fine (create_params s c' lu) (record {
      allowed = allowed;
      asked = asked;
      missing = m;
      loaded = (c, c', s, l, e, create_params-IsParams s c' lu);
    })

    create_instance-Fine :
        (o : Option CreateConfig)
        → w.create_config ≡ o
        → found w.get_instance_user ≡ none
        → Fine w config r lu (create_instance w config r lu o)
    unfolding create_instance
    create_instance-Fine none l m = ground arith
    create_instance-Fine (some c) l m = after_profiles-Fine c _ l m refl

    create_unless_found-Fine :
        (o : Option InstanceUser)
        → found w.get_instance_user ≡ o
        → Fine w config r lu (create_unless_found w config r lu o)
    unfolding create_unless_found
    create_unless_found-Fine (some iu) e = (tt, tt)
    create_unless_found-Fine none e = Fits-then Allowed _ _ refl tt (
        Fits-bind Allowed (create_instance w config r lu w.create_config) _
          (create_instance-Fine w.create_config refl e) (λ _. (tt, tt)))

  create_unless_found-Yields :
      (o : Option InstanceUser)
      → found w.get_instance_user ≡ o
      → Yields Allowed (Answered w config r lu) (create_unless_found w config r lu o)
  unfolding create_unless_found
  create_unless_found-Yields (some iu) e = inl e
  create_unless_found-Yields none e =
      Yields-bind Allowed (Answered w config r lu)
        (emit (printed (codes "creating instance...\r\n"))) _
        (λ _.
          Yields-bind Allowed (Answered w config r lu)
            (create_instance w config r lu w.create_config) (λ _. pure none) (λ _. tt))

  abbrev pub IsEnsured : Trace (Option InstanceUser) → Type 0
  IsEnsured t = Fine w config r lu t × Yields Allowed (Answered w config r lu) t

  IsEnsured-if :
      (b : Bool) (t u : Trace (Option InstanceUser))
      → (b ≡ true → IsEnsured t)
      → (b ≡ false → IsEnsured u)
      → IsEnsured (if b then t else u)
  IsEnsured-if true t u h k = h refl
  IsEnsured-if false t u h k = k refl

  asking-IsEnsured :
      config.allow_create ≡ true
      → lu.create_instance ≡ true
      → IsEnsured (emit asked_user >> create_unless_found w config r lu (found w.get_instance_user))
  asking-IsEnsured allowed asked = (
    Fits-then Allowed _ _ refl tt (create_unless_found-Fine allowed asked _ refl),
    Yields-bind Allowed (Answered w config r lu) (emit asked_user) _
        (λ _. create_unless_found-Yields _ refl),
  )

  pub ensure_instance-IsEnsured : IsEnsured (ensure_instance w config r lu)
  unfolding ensure_instance
  ensure_instance-IsEnsured =
      IsEnsured-if (not lu.create_instance) (pure none) _ (λ _. ((tt, tt), tt))
        (λ asked.
          IsEnsured-if (not config.allow_create) _ _ (λ _. ground arith)
            (λ allowed. asking-IsEnsured (ground arith) (ground arith)))
