-- ===== src/Forward/Reverse.antt =====
-- server/ssh-request.go: ForwardTCPHandler, reversePortForwardingCallback. One handler serves all
-- connections of a process. Listeners are numbers; what they accept and copy is left out, and so is the
-- registration of their devices. A forwarding is served by two goroutines: one waits for the end of the
-- session, the other accepts connections.
pub mod Ends
use ssh2incus.Base.{ℕ, Bool, not, Option, none, some, List, [], ◌∷◌, ◌++◌, if◌then◌else◌}
use ssh2incus.Base.Result.{Result, ok, err}
use ssh2incus.Base.Text.{Text, codes, text_eq}
use ssh2incus.Base.Dict.{Dict, lookup, insert, delete}
use ssh2incus.Base.Text.Decimal.{itoa}
use ssh2incus.Base.Text.HostPort.{join_host_port}

pub record ForwardRequest : Type 0 where
  pub bind_addr : Text
  pub bind_port : ℕ

-- The answers for a request; `add_reverse_port` gives the listener of the device with its port, or none
-- where the device has no listener. `login_text` is how the login is printed.
pub record World : Type 0 where
  pub is_valid : Bool
  pub login_text : Text
  pub unmarshal : Text → Option ForwardRequest
  pub allowed : ForwardRequest → Bool
  pub connect : Result (Unit {0})
  pub use_project : Result (Unit {0})
  pub add_reverse_port : Text → Result (Option (ℕ × ℕ))

-- `closed` lists the listeners that were closed; `shut_down` the listeners whose device was shut down.
pub record Handler : Type 0 where
  pub forwards : Dict ℕ
  pub closed : List ℕ
  pub shut_down : List ℕ

abbrev pub new_handler : Handler
new_handler = record { forwards = []; closed = []; shut_down = [] }

-- The reply to a request: the port of a success.
pub data Reply : Type 0 where
  refused : Text → Reply
  bound : ℕ → Reply
  cancelled : Reply

unfoldable pub address_of : ForwardRequest → Text
unfolding join_host_port itoa
address_of r = join_host_port r.bind_addr (itoa r.bind_port)

abbrev pub listen_on : Text → Text → Result (Option (ℕ × ℕ)) → Handler → Reply × Handler
listen_on host src (err m) h = (refused (codes "error listening on " ++ (host ++ codes "\n")), h)
listen_on host src (ok none) h = (refused (codes "error listening on " ++ (src ++ codes "\n")), h)
listen_on host src (ok (some (ln, p))) h =
    (bound p, record h { forwards = insert src ln h.forwards })

abbrev pub or_refuse : Result (Unit {0}) → Reply × Handler → Handler → Reply × Handler
or_refuse (err m) rest h = (refused (codes "cannot connect to incus: " ++ (m ++ codes "\n")), h)
or_refuse (ok u) rest h = rest

unfoldable pub forward : World → ForwardRequest → Handler → Reply × Handler
unfolding address_of insert
forward w r h =
    if not (w.allowed r)
    then (refused (codes "port forwarding is disabled\n"), h)
    else or_refuse w.connect
        (or_refuse w.use_project
          (listen_on r.bind_addr (address_of r) (w.add_reverse_port (address_of r)) h) h)
        h

abbrev pub close_found : Option ℕ → Handler → Handler
close_found none h = h
close_found (some ln) h = record h { closed = ln ∷ h.closed }

unfoldable pub cancel : ForwardRequest → Handler → Reply × Handler
unfolding address_of lookup
cancel r h = (cancelled, close_found (lookup (address_of r) h.forwards) h)

abbrev pub parsed :
    (ForwardRequest → Handler → Reply × Handler) → Option ForwardRequest → Handler → Reply × Handler
parsed f none h = (refused (codes "error parsing payload\n"), h)
parsed f (some r) h = f r h

unfoldable pub handle_ssh_request : World → Text → Text → Handler → Reply × Handler
unfolding forward cancel text_eq
handle_ssh_request w type payload h =
    if not w.is_valid
    then (refused (codes "Invalid login for " ++ w.login_text), h)
    else if text_eq type (codes "tcpip-forward")
    then parsed (forward w) (w.unmarshal payload) h
    else if text_eq type (codes "cancel-tcpip-forward")
    then parsed cancel (w.unmarshal payload) h
    else (refused [], h)

-- The goroutine of a forwarding behind the end of its session: the device of its own listener is shut
-- down, and the listener that is found under its address is closed.
unfoldable pub session_done : Text → ℕ → Handler → Handler
unfolding lookup
session_done src ln h =
    close_found (lookup src h.forwards) (record h { shut_down = ln ∷ h.shut_down })

-- The end of the loop that accepts connections, where its listener is closed or fails.
unfoldable pub accept_ended : Text → ℕ → Handler → Handler
unfolding delete
accept_ended src ln h = record h { shut_down = ln ∷ h.shut_down; forwards = delete src h.forwards }

-- What can happen to the handler; a forwarding is known by its address and listener.
pub data Step (h : Handler) : Handler → Type 0 where
  requested : (w : World) (type payload : Text) → Step h (handle_ssh_request w type payload h).1
  session_ended : (src : Text) (ln : ℕ) → Step h (session_done src ln h)
  accepting_ended : (src : Text) (ln : ℕ) → Step h (accept_ended src ln h)
