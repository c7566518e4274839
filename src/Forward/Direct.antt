-- ===== src/Forward/Direct.antt =====
-- server/port-forward.go, directTCPIPStdioHandler, which setupServer registers for channels of the type
-- direct-tcpip. The copying of data is left out, and so is logging.
pub mod Destination
use ssh2incus.Base.{ℕ, Bool, not, ◌&&◌, Option, none, some, List, [], ◌∷◌, ◌++◌, if◌then◌else◌}
use ssh2incus.Base.Result.{Result, ok, err}
use ssh2incus.Base.Text.{Text, codes, text_eq, is_empty, starts_with_byte}
use ssh2incus.Base.Dict.{Dict}
use ssh2incus.Base.Text.Decimal.{itoa}
use ssh2incus.Base.Text.HostPort.{join_host_port}
use ssh2incus.LoginUser.{Login}
use ssh2incus.LoginUser.Print.{full_instance}
use ssh2incus.LoginUser.Valid.{InstanceUser}

pub record LocalForwardChannelData : Type 0 where
  pub dest_addr : Text
  pub dest_port : ℕ
  pub origin_addr : Text
  pub origin_port : ℕ

-- The answers of everything that the handler asks. `networks` are the addresses of each network, none
-- where they are an error, and `networks_error` is how that error is printed; `login_text` is how the
-- login is printed, and `architecture` is that of the cached instance.
pub record World : Type 0 where
  pub is_valid : Bool
  pub login_text : Text
  pub unmarshal : Text → Result LocalForwardChannelData
  pub connect : Result (Unit {0})
  pub networks : Text → Text → Dict (List Text)
  pub networks_error : Text → Text → Text
  pub use_project : Text → Result (Unit {0})
  pub architecture : Text → Text → Result Text
  pub bin_name : Text
  pub bin_bytes : Text → Result Text
  pub ungz : Text → Result Text
  pub file_exists : Text → Text → Text → Bool
  pub upload : Text → Text → Text → Result (Unit {0})
  pub instance_user : Text → Text → Text → Result (Option InstanceUser)
  pub dial : Text → Result (Unit {0})
  pub accept : Result (Unit {0})

-- The run of the proxy in an instance.
pub record ProxyExec : Type 0 where
  pub instance_name : Text
  pub cmd : Text
  pub uid : ℕ
  pub gid : ℕ
  pub env : Dict Text

pub data Event : Type 0 where
  rejected : Text → Event
  dialed : Text → Event
  accepted : Event
  uploaded : (project name path : Text) → Event
  executed : ProxyExec → Event

abbrev pub reject : Text → List Event
reject m = rejected m ∷ []

-- The first network whose name begins with `e`.
unfoldable pub ethernet : Dict (List Text) → List Text
ethernet [] = []
ethernet ((d, addresses) ∷ networks) =
    let rest = ethernet networks in if starts_with_byte b'e' d then addresses else rest

abbrev pub cannot_connect : Text → Text
cannot_connect m = codes "cannot connect to incus: " ++ m

-- The address of the instance, and what the context remembers afterwards.
abbrev pub first_address : Text → List Text → Result Text
first_address said [] = err (codes "cannot get instance IP address: " ++ said)
first_address said (a ∷ more) = ok a

abbrev pub found_address : World → Login → Result (Unit {0}) → Result Text
found_address w lu (err m) = err (cannot_connect m)
found_address w lu (ok u) =
    first_address (w.networks_error lu.project lu.instance_name)
      (ethernet (w.networks lu.project lu.instance_name))

unfoldable pub resolve_address : World → Login → Option Text → Result Text
unfolding ethernet
resolve_address w lu (some a) = ok a
resolve_address w lu none = found_address w lu w.connect

abbrev pub dest_of : LocalForwardChannelData → Text → Text
dest_of d address = if is_empty d.dest_addr && not (is_empty address) then address else d.dest_addr

-- A step that fails rejects the channel.
abbrev pub or_reject : {A : Type 0} → Result A → (Text → Text) → (A → List Event) → List Event
or_reject (ok a) say rest = rest a
or_reject (err m) say rest = reject (say m)

-- newChan.Accept fails without a reject.
abbrev pub if_accepted : Result (Unit {0}) → List Event → List Event
if_accepted (ok u) rest = accepted ∷ rest
if_accepted (err m) rest = []

abbrev pub proxy_cmd : World → Text → ℕ → Text
proxy_cmd w dest p = w.bin_name ++ (codes " tcp:" ++ (dest ++ b':' ∷ itoa p))

unfoldable pub proxy_env : InstanceUser → Dict Text
unfolding itoa
proxy_env iu =
    (codes "USER", iu.user)
    ∷ (codes "UID", itoa iu.uid)
    ∷ (codes "GID", itoa iu.gid)
    ∷ (codes "HOME", iu.dir)
    ∷ []

abbrev pub run_as : World → Login → Text → ℕ → Option InstanceUser → List Event
run_as w lu dest p none = reject (codes "not found user or instance")
run_as w lu dest p (some iu) = if_accepted w.accept (
    executed (record {
      instance_name = lu.instance_name;
      cmd = proxy_cmd w dest p;
      uid = iu.uid;
      gid = iu.gid;
      env = proxy_env iu;
    })
    ∷ [])

unfoldable pub run_proxy : World → Login → Text → ℕ → List Event
unfolding proxy_env itoa
run_proxy w lu dest p =
    or_reject (w.instance_user lu.project lu.instance_name lu.instance_user)
      (λ m. codes "failed to get instance user " ++ (lu.instance_user ++ (codes ": " ++ m)))
      (run_as w lu dest p)

abbrev pub with_binary : World → Login → Text → ℕ → Text → List Event
with_binary w lu dest p binary =
    if w.file_exists lu.project lu.instance_name binary
    then run_proxy w lu dest p
    else uploaded lu.project lu.instance_name w.bin_name
      ∷ or_reject (w.upload lu.project lu.instance_name binary)
          (λ m. codes "stdio-proxy is not available on " ++ (full_instance lu ++ codes "\n"))
          (λ u. run_proxy w lu dest p)

-- A destination that is not the instance's address is reached from within the instance.
unfoldable pub through_instance : World → Login → Text → ℕ → List Event
unfolding run_proxy full_instance
through_instance w lu dest p = or_reject w.connect cannot_connect (λ u.
    or_reject (w.use_project lu.project) cannot_connect (λ u.
      or_reject (w.architecture lu.project lu.instance_name)
        (λ m. codes "cannot get instance " ++ (full_instance lu ++ (codes ": " ++ m)))
        (λ arch.
          or_reject (w.bin_bytes arch) (λ m. codes "failed to get stdio-proxy binary")
            (λ packed.
              or_reject (w.ungz packed) (λ m. codes "failed to prepare stdio-proxy")
                (λ binary. with_binary w lu dest p binary)))))

unfoldable pub dial_instance : World → Text → ℕ → List Event
unfolding join_host_port itoa
dial_instance w dest p =
    dialed (join_host_port dest (itoa p))
    ∷ or_reject (w.dial (join_host_port dest (itoa p)))
        (λ m. codes "failed to connect to tcp://" ++ join_host_port dest (itoa p))
        (λ u. if_accepted w.accept [])

unfoldable pub forward_to : World → Login → Text → ℕ → Text → List Event
unfolding text_eq through_instance dial_instance
forward_to w lu dest p address =
    if text_eq dest address then dial_instance w dest p else through_instance w lu dest p

abbrev pub forward_resolved :
    World → Login → LocalForwardChannelData → Result Text → List Event × Option Text
forward_resolved w lu d (err m) = (reject m, none)
forward_resolved w lu d (ok address) =
    (forward_to w lu (dest_of d address) d.dest_port address, some address)

abbrev pub forward_parsed :
    World → Login → Result LocalForwardChannelData → Option Text → List Event × Option Text
forward_parsed w lu (err m) resolved =
    (reject (codes "error parsing forward data: " ++ m), resolved)
forward_parsed w lu (ok d) resolved = forward_resolved w lu d (resolve_address w lu resolved)

-- `resolved` is the value of the context under ContextKeyResolvedInstanceAddr.
unfoldable pub direct_tcpip_stdio_handler :
    World → Login → Text → Option Text → List Event × Option Text
unfolding forward_to resolve_address
direct_tcpip_stdio_handler w lu extra_data resolved =
    if not w.is_valid
    then (reject (codes "Invalid login for " ++ w.login_text), resolved)
    else forward_parsed w lu (w.unmarshal extra_data) resolved
