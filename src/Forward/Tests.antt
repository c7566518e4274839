-- ===== src/Forward/Tests.antt =====
-- Forwarded channels and requests that the theorems apply to.
use ssh2incus.Base.{ℕ, ◌≡◌, refl, true, false, none, some, [], ◌∷◌, All}
use ssh2incus.Base.Result.{ok}
use ssh2incus.Base.Text.{codes}
use ssh2incus.LoginUser.{Login, zero_login}
use ssh2incus.LoginUser.Valid.{InstanceUser}
use ssh2incus.Forward.Direct as Direct
use ssh2incus.Forward.Direct.{LocalForwardChannelData, direct_tcpip_stdio_handler}
use ssh2incus.Forward.Direct.Destination.{IsForwarded, direct_tcpip-IsForwarded}
use ssh2incus.Forward.Reverse as Reverse
use ssh2incus.Forward.Reverse.{
  ForwardRequest, Handler, new_handler, Reply, bound, cancelled, address_of, forward, cancel,
  session_done,
}
use ssh2incus.Forward.Reverse.Ends.{here, cancel-own, session_done-other}

abbrev lu : Login
lu = record zero_login {
  project = codes "team";
  instance_name = codes "web";
  instance_user = codes "root";
}

abbrev root : InstanceUser
root = record {
  project = codes "team";
  instance_name = codes "web";
  user = codes "root";
  uid = 0;
  gid = 0;
  dir = codes "/root";
  shell = codes "/bin/sh";
  ent = [];
}

abbrev data_of : LocalForwardChannelData
data_of = record { dest_addr = codes "db"; dest_port = 5432; origin_addr = []; origin_port = 0 }

abbrev world : Direct.World
world = record {
  is_valid = true;
  login_text = [];
  unmarshal = λ p. ok data_of;
  connect = ok tt;
  networks =
      λ p n. (codes "lo", codes "127.0.0.1" ∷ []) ∷ (codes "eth0", codes "10.0.0.2" ∷ []) ∷ [];
  networks_error = λ p n. codes "<nil>";
  use_project = λ p. ok tt;
  architecture = λ p n. ok (codes "x86_64");
  bin_name = codes "/tmp/stdio-proxy";
  bin_bytes = λ a. ok (codes "zipped");
  ungz = λ b. ok (codes "binary");
  file_exists = λ p n b. false;
  upload = λ p n b. ok tt;
  instance_user = λ p n u. ok (some root);
  dial = λ a. ok tt;
  accept = ok tt;
}

direct_tcpip-IsForwarded_example :
    All (IsForwarded world lu none data_of) (direct_tcpip_stdio_handler world lu [] none).0
direct_tcpip-IsForwarded_example = direct_tcpip-IsForwarded world lu [] none data_of refl

abbrev request : ForwardRequest
request = record { bind_addr = codes "localhost"; bind_port = 8080 }

-- The listener of the device is the given one.
abbrev granting : ℕ → Reverse.World
granting ln = record {
  is_valid = true;
  login_text = [];
  unmarshal = λ p. some request;
  allowed = λ r. true;
  connect = ok tt;
  use_project = ok tt;
  add_reverse_port = λ a. ok (some (ln, 40000));
}

granted :
    (ln : ℕ) (h : Handler)
    → forward (granting ln) request h ≡ (bound 40000, (forward (granting ln) request h).1)
unfolding forward
granted ln h = refl

abbrev one : Handler
one = (forward (granting 1) request new_handler).1

cancel-own_example : cancel request one ≡ (cancelled, record one { closed = 1 ∷ one.closed })
cancel-own_example =
    cancel-own (granting 1) request new_handler one one 1 40000 40000 refl (granted 1 new_handler)
      here

abbrev both : Handler
both = (forward (granting 2) request one).1

session_done-other_example :
    session_done (address_of request) 1 both ≡ record both { closed = 2 ∷ []; shut_down = 1 ∷ [] }
session_done-other_example =
    session_done-other (granting 1) (granting 2) request new_handler one both 1 40000 40000 2 40000
      40000 refl (granted 1 new_handler) refl (granted 2 one)
