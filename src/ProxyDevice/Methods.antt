-- ===== src/ProxyDevice/Methods.antt =====
-- pkg/incus/proxy-device.go: what a device does. Each method runs on the queue, so alone.
use ssh2incus.Base.{ℕ, not, Option, none, some, List, [], ◌∷◌, ◌++◌, ◌==◌, if◌then◌else◌}
use ssh2incus.Base.Int.{ℤ, pos, negsuc}
use ssh2incus.Base.Result.{Result, ok, err}
use ssh2incus.Base.Text.{Text, codes, is_empty, is_some, or_else, trim_prefix, contains_byte}
use ssh2incus.Base.Dict.{Dict, lookup, insert, delete}
use ssh2incus.Base.Text.Numbers.{show_int}
use ssh2incus.Base.Text.Decimal.{itoa}
use ssh2incus.Base.Text.HostPort.{join_host_port, split_host_port}
use ssh2incus.ProxyDevice.{
  Instance, Incus, unset, socket, port, ProxyDevice, removed_all, executed, closed_listener, World,
  M, ◌>>=◌, ◌>>◌, set_device, fail_if, target, emit, pure, connect, use_project, ask_instance,
  get_instance, update,
}

-- path.Dir of a clean absolute path.
abbrev pub dir_at : ℕ → Option Text → Text → Option Text
dir_at c (some d) s = some (c ∷ d)
dir_at c none s = if c == b'/' then some [] else none

unfoldable pub cut_dir : Text → Option Text
cut_dir [] = none
cut_dir (c ∷ s) = dir_at c (cut_dir s) s

abbrev pub dir_of : Option Text → Text
dir_of none = codes "."
dir_of (some []) = codes "/"
dir_of (some (c ∷ d)) = c ∷ d

unfoldable pub dir : Text → Text
unfolding cut_dir
dir s = dir_of (cut_dir s)

abbrev pub field : Text → Option (Dict Text) → Text
field k none = []
field k (some device) = or_else (lookup k device) []

unfoldable pub socket_device : ProxyDevice → Dict Text
unfolding show_int
socket_device p =
    (codes "type", codes "proxy")
    ∷ (codes "connect", codes "unix:" ++ p.source)
    ∷ (codes "listen", codes "unix:" ++ p.target)
    ∷ (codes "bind", codes "instance")
    ∷ (codes "mode", p.mode)
    ∷ (codes "uid", show_int p.uid)
    ∷ (codes "gid", show_int p.gid)
    ∷ []

unfoldable pub port_device : Text → Text → Text → Dict Text
port_device from to bind =
    (codes "type", codes "proxy")
    ∷ (codes "connect", codes "tcp:" ++ from)
    ∷ (codes "listen", codes "tcp:" ++ to)
    ∷ (codes "bind", bind)
    ∷ []

module _ {S : Type 0} (i : Incus S) where
  abbrev pub name_socket : M S (Unit {0})
  name_socket w = (
    ok tt,
    record w {
      device =
          let name = codes "proxy-socket-" ++ i.fresh_name w.server in
          record w.device { device_name = name; target = codes "/tmp/" ++ (name ++ codes ".sock") };
    },
  )

  -- The device is added under its name, unless there is one.
  abbrev pub add_to : Dict Text → Instance × Text → M S (Unit {0})
  add_to device (inst, etag) w =
      (fail_if (is_some (lookup w.device.device_name inst.devices)) (codes "device already exists")
          >> update i inst.name (insert w.device.device_name device inst.devices) etag)
        w

  abbrev pub add_socket_to : Instance × Text → M S (Unit {0})
  add_socket_to it w = add_to (socket_device w.device) it w

  unfoldable pub add_socket : M S Text
  unfolding socket_device lookup insert
  add_socket w =
      (do
        set_device (λ p. record p { typ = socket })
        name_socket
        it ← (λ v. ask_instance i v.device.instance v)
        add_socket_to it
        target)
        w

  abbrev pub remove_from : Instance × Text → M S (Option (Dict Text))
  remove_from (inst, etag) w =
      (fail_if (not (is_some (lookup w.device.device_name inst.devices)))
            (codes "device does not exist")
          >> (update i inst.name (delete w.device.device_name inst.devices) etag
              >> pure (lookup w.device.device_name inst.devices)))
        w

  -- The error of a command whose exit code is not 0 is the result; there may be none.
  abbrev pub exec_result : ℤ × Option Text → Result (Unit {0})
  exec_result (pos n, some m) = if n == 0 then ok tt else err m
  exec_result (negsuc n, some m) = err m
  exec_result (ret, none) = ok tt

  abbrev pub exec : Text → Text → M S (Unit {0})
  exec name cmd w = (
    exec_result (i.exec w.server w.device.client.used name cmd),
    record w { events = w.events ++ executed name cmd ∷ [] },
  )

  abbrev pub clean_up : Text → Option (Dict Text) → M S (Unit {0})
  clean_up name device = do
    emit (removed_all (dir (trim_prefix (codes "unix:") (field (codes "connect") device))))
    exec name (codes "rm -f " ++ trim_prefix (codes "unix:") (field (codes "listen") device))

  abbrev pub remove_socket_from : Instance × Text → M S (Unit {0})
  remove_socket_from it = remove_from it >>= clean_up it.0.name

  unfoldable pub remove_socket : M S (Unit {0})
  unfolding lookup delete dir trim_prefix
  remove_socket w =
      (do connect i; it ← (λ v. ask_instance i v.device.instance v); remove_socket_from it) w

  -- fixSource: a port alone is one of the host, and a name is resolved.
  abbrev pub first_ip : Result (List Text) → Result Text
  first_ip (err m) = err m
  first_ip (ok []) = err (codes "no IP address found")
  first_ip (ok (ip ∷ ips)) = ok ip

  abbrev pub resolve : Text → Result Text
  resolve addr = if i.is_ip_address addr then ok addr else first_ip (i.lookup_host addr)

  abbrev pub with_port : Text → Result Text → Result Text
  with_port p (err m) = err m
  with_port p (ok ip) = ok (join_host_port ip p)

  abbrev pub resolve_split : Result (Text × Text) → Result Text
  resolve_split (err m) = err m
  resolve_split (ok (addr, p)) = with_port p (resolve addr)

  abbrev pub with_host : Text → Text
  with_host source = if contains_byte b':' source then source else codes "127.0.0.1:" ++ source

  unfoldable pub fixed_source : Text → Result Text
  unfolding split_host_port join_host_port contains_byte
  fixed_source source = resolve_split (split_host_port (with_host source))

  -- The source has its host also where the resolution fails.
  abbrev pub set_source : Result Text → World S → Result (Unit {0}) × World S
  set_source (err m) w =
      (err m, record w { device = record w.device { source = with_host w.device.source } })
  set_source (ok source) w = (ok tt, record w { device = record w.device { source = source } })

  abbrev pub fix_source : M S (Unit {0})
  fix_source w = set_source (fixed_source w.device.source) w

  abbrev pub name_port_by : Text → Option ℕ → Result ℕ → World S → Result (Unit {0}) × World S
  name_port_by kind ln (err m) w = (err m, w)
  name_port_by kind ln (ok n) w = (
    ok tt,
    record w {
      device = record w.device {
        device_name = kind ++ itoa n;
        target = codes "127.0.0.1:" ++ itoa n;
        listener = ln;
      };
    },
  )

  abbrev pub name_port : M S (Unit {0})
  name_port w = name_port_by (codes "proxy-port-") w.device.listener (i.free_port w.server) w

  abbrev pub listener_of : Result ℕ → Option ℕ
  listener_of (ok n) = some n
  listener_of (err m) = none

  abbrev pub listening : Result ℕ → Result ℕ
  listening (ok n) = ok n
  listening (err m) = err (codes "error listening on 127.0.0.1:0")

  abbrev pub name_reverse_port : M S (Unit {0})
  name_reverse_port w =
      name_port_by (codes "proxy-reverse-port-") (listener_of (i.listen w.server))
        (listening (i.listen w.server)) w

  abbrev pub add_port_to : Instance × Text → M S (Unit {0})
  add_port_to it w = add_to (port_device w.device.source w.device.target (codes "host")) it w

  abbrev pub add_reverse_port_to : Instance × Text → M S (Unit {0})
  add_reverse_port_to it w =
      add_to (port_device w.device.target w.device.source (codes "instance")) it w

  abbrev pub own_instance : M S (Instance × Text)
  own_instance w = get_instance i w.device.project w.device.instance w

  unfoldable pub add_port : M S Text
  unfolding fixed_source itoa port_device lookup insert use_project
  add_port w =
      (do
        set_device (λ p. record p { typ = port })
        fix_source
        name_port
        it ← own_instance
        add_port_to it
        target)
        w

  unfoldable pub add_reverse_port : M S Text
  unfolding fixed_source itoa port_device lookup insert use_project
  add_reverse_port w =
      (do
        set_device (λ p. record p { typ = port })
        fix_source
        name_reverse_port
        it ← own_instance
        add_reverse_port_to it
        target)
        w

  abbrev pub ignore : {A : Type 0} → Result A × World S → Result (Unit {0}) × World S
  ignore (ok a, w) = (ok tt, w)
  ignore (err m, w) = (err m, w)

  -- defer p.listener.Close(), which runs behind the connection whatever comes of the rest.
  abbrev pub close_listener : Option ℕ → Result (Unit {0}) × World S → Result (Unit {0}) × World S
  close_listener none t = t
  close_listener (some n) (r, w) = (r, record w { events = w.events ++ closed_listener n ∷ [] })

  abbrev pub remove_port_connected : M S (Unit {0})
  remove_port_connected w = close_listener w.device.listener (
      (fail_if (is_empty w.device.instance) (codes "instance name is empty")
          >> (own_instance >>= λ it. remove_from it >>= λ _. pure tt))
        w)

  unfoldable pub remove_port : M S (Unit {0})
  unfolding lookup delete use_project
  remove_port w = (connect i >> remove_port_connected) w

  unfoldable pub shutdown : M S (Unit {0})
  unfolding remove_socket remove_port
  shutdown w = elim w.device.typ [
    | unset ↦ (ok tt, w)
    | socket ↦ remove_socket w
    | port ↦ remove_port w
  ]
