-- ===== src/ProxyDevice/Tests.antt =====
-- A server whose instances all exist, and ports that are added in two projects.
use ssh2incus.Base.{
  ◌≡◌, ◌≢◌, refl, sym, ap, ◌∙◌, ◌⊎◌, inl, true, ◌&&◌, none, some, [], ◌∷◌, if◌then◌else◌, arith,
  List,
}
use ssh2incus.Base.Int.{pos}
use ssh2incus.Base.Result.{ok, err}
use ssh2incus.Base.Text.{Text, codes, text_eq}
use ssh2incus.Base.Text.Laws.{text_eq_iff, text_eq_refl}
use ssh2incus.Base.Dict.{Dict, lookup}
use ssh2incus.ProxyDevice.{Instance, Incus, unset, port, ProxyDevice, World, use_project}
use ssh2incus.ProxyDevice.Methods.{add_port, remove_port, port_device}
use ssh2incus.ProxyDevice.Laws.{IsIncus}
use ssh2incus.ProxyDevice.Removal.{remove_port-leftover}
use ssh2incus.ProxyDevice.Restored.{remove_port-restored}
use ssh2incus.ProxyDevice.Leftover as Leftover
use ssh2incus.ProxyDevice.Leftover.{Listed, clean_leftover_proxy_devices}
use ssh2incus.ProxyDevice.Leftover.Cleaned.{Shows}
use ssh2incus.ProxyDevice.Leftover.Remaining.{remaining, clean_leftover-remaining}

-- The devices of each instance.
abbrev State : Type 0
State = Text → Text → Dict (Dict Text)

abbrev written : State → Text → Text → Dict (Dict Text) → State
written s p n devices q m = if text_eq p q && text_eq n m then devices else s q m

abbrev incus : Incus State
incus = record {
  connect = λ s. ok tt;
  get_project = λ s p. ok p;
  get_instance = λ s p n. ok (record { name = n; devices = s p n }, []);
  update_instance = λ s p n devices etag. (ok tt, written s p n devices);
  exec = λ s p n cmd. (pos 0, none);
  fresh_name = λ s. codes "1a";
  free_port = λ s. ok 4000;
  listen = λ s. ok 4001;
  is_ip_address = λ a. true;
  lookup_host = λ a. err (codes "no host");
}

written_self :
    (s : State) (p n : Text) (devices : Dict (Dict Text)) → written s p n devices p n ≡ devices
written_self s p n devices = rw (text_eq_refl p, text_eq_refl n) refl

written-other :
    (s : State) (p n q m : Text) (devices : Dict (Dict Text))
    → (p ≢ q) ⊎ (n ≢ m)
    → written s p n devices q m ≡ s q m
written-other s p n q m devices h = ground (arith, text_eq_iff p q, text_eq_iff n m)

laws : IsIncus incus
laws = record {
  project_name = λ s p n h. ground arith;
  instance_name = λ s p n etag inst h. ground arith;
  updated_instance = λ s s' p n etag devices h. (
    [],
    ap (λ d. ok (record { name = n; devices = d }, []))
        (ap (λ t. t.1 p n) (sym h) ∙ written_self s p n devices),
  );
  other_instance = λ s p n etag q m devices h.
      ap (λ d. ok (record { name = m; devices = d }, [])) (written-other s p n q m devices h);
}

abbrev new_device : Text → ProxyDevice
new_device project = record {
  client = record { project = project; used = project };
  project = project;
  instance = codes "web";
  source = codes "80";
  uid = pos 0;
  gid = pos 0;
  mode = [];
  device_name = [];
  target = [];
  typ = unset;
  listener = none;
}

abbrev world : Text → World State
world project = record { device = new_device project; server = λ p n. []; events = [] }

abbrev added : Text → World State
added project = record (world project) {
  device = record (new_device project) {
    source = codes "127.0.0.1:80";
    device_name = codes "proxy-port-4000";
    target = codes "127.0.0.1:4000";
    typ = port;
  };
  server =
      written (λ p n. []) project (codes "web")
        ((
          codes "proxy-port-4000",
          port_device (codes "127.0.0.1:80") (codes "127.0.0.1:4000") (codes "host"),
        )
          ∷ []);
}

added_default :
    add_port incus (world (codes "default"))
    ≡ (ok (codes "127.0.0.1:4000"), added (codes "default"))
unfolding add_port use_project text_eq
added_default = refl

added_team :
    add_port incus (world (codes "team")) ≡ (ok (codes "127.0.0.1:4000"), added (codes "team"))
unfolding add_port use_project text_eq
added_team = refl

remove_port-leftover_example :
    (inst : Instance) × (etag : Text) × (device : Dict Text) × (incus.get_instance
        (remove_port incus (added (codes "team"))).1.server
        (codes "team")
        (codes "web")
      ≡ ok (inst, etag))
    × (lookup (codes "proxy-port-4000") inst.devices ≡ some device)
remove_port-leftover_example =
    remove_port-leftover incus laws (world (codes "team")) (added (codes "team"))
      (codes "127.0.0.1:4000") (inl refl) (λ e. cc) added_team

remove_port-restored_example :
    (before : Instance) × (etag : Text) × (etag' : Text) × (incus.get_instance
        (world (codes "default")).server
        (codes "default")
        (codes "web")
      ≡ ok (before, etag))
    × ((remove_port incus (added (codes "default"))).0 ≡ ok tt)
    × (incus.get_instance
          (remove_port incus (added (codes "default"))).1.server
          (codes "default")
          (codes "web")
        ≡ ok (record { name = codes "web"; devices = before.devices }, etag'))
remove_port-restored_example =
    remove_port-restored incus laws (world (codes "default")) (added (codes "default"))
      (codes "127.0.0.1:4000") (inl refl) refl (λ e. cc) (λ s. refl) (λ s p n etag devices. refl)
      added_default

-- A device that is left in both projects, and one of a user.
abbrev left : Dict (Dict Text)
left = (codes "proxy-port-1", []) ∷ (codes "eth0", []) ∷ []

abbrev listed : List Listed
listed = record { project = codes "team"; name = codes "web"; devices = left } ∷ []

abbrev host : Leftover.Host State
host = record { server = λ p n. left; events = [] }

clean_leftover-remaining_example :
    Shows incus
      (codes "default")
      (codes "web")
      (clean_leftover_proxy_devices incus (ok listed) host).1.server
      (remaining (codes "default") (codes "web") listed (λ k. lookup k left))
clean_leftover-remaining_example =
    clean_leftover-remaining incus laws (λ s p n etag devices. refl) (codes "default") (codes "web")
      listed host (λ k. lookup k left) refl
      (record { name = codes "web"; devices = left }, [], refl, λ k. refl)
