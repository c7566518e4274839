-- ===== src/Web/Tests.antt =====
-- Requests of the web interface that the theorems apply to.
use ssh2incus.Base.{◌≡◌, refl, ◌↔◌, ◌⊎◌, true, false, Option, none, some, List, [], ◌∷◌}
use ssh2incus.Base.Int.{pos}
use ssh2incus.Base.Result.{ok, err}
use ssh2incus.Base.Text.{Text, codes}
use ssh2incus.Base.Dict.{Dict, insert}
use mathlib.Core.List.{Perm}
use ssh2incus.Web.Credentials.{is_served}
use ssh2incus.Base.Text.Space.{trim_space}
use ssh2incus.Web.Credentials.Access.{listed, items, is_served_iff}
use ssh2incus.Web.Action.{InstanceActionRequest}
use ssh2incus.Web.Action as Action
use ssh2incus.Web.Create.{CreateInstanceRequest}
use ssh2incus.Web.Addresses.{AddressInfo, NetworkAddress, addresses}
use ssh2incus.Web.Addresses.Listed.{AreInet, entries, IsSorted, addresses-IsSorted}
use ssh2incus.Web.Listing as Listing
use ssh2incus.Web.Listing.{Instance, list_instances, list_instances_detailed, no_details}
use ssh2incus.Web.Listing.Agreement.{rows_of, list_instances-rows}

abbrev web_auth : Text
web_auth = codes "ann:1, bob:x:y,ann:2"

abbrev login : Option (Text × Text)
login = some (codes "bob", codes "x:y")

served : is_served web_auth login ≡ true
unfolding is_served trim_space insert
served = refl

-- An option that names no user with a password lets everybody in.
open_to_all : is_served (codes "admin") none ≡ true
unfolding is_served trim_space
open_to_all = refl

is_served_iff_example : (is_served web_auth login ≡ true) ↔ (
    ((u : Text) → listed (items web_auth) u ≡ none)
    ⊎ ((u : Text) × (p : Text) × (login ≡ some (u, p)) × (listed (items web_auth) u ≡ some p)))
is_served_iff_example = is_served_iff web_auth login (λ e. cc)

abbrev request : InstanceActionRequest
request = record { action = codes "stop"; force = true; stateful = false; delete = true }

abbrev action_incus : Action.Incus
action_incus = record {
  connect = ok tt;
  update_instance_state = λ p n put. ok tt;
  wait_update = ok tt;
  delete_instance = λ p n. ok tt;
  wait_delete = err (codes "busy");
}

abbrev create_request : CreateInstanceRequest
create_request = record {
  name = codes "web";
  project = codes "team";
  image = codes "images:alpine";
  memory = pos 1;
  cpu = pos 1;
  disk = pos 0;
  ephemeral = false;
  config = [];
  devices = [];
  init_only = false;
}

abbrev network : Dict (List NetworkAddress)
network =
    (codes "lo", record { family = codes "inet"; address = codes "127.0.0.1" } ∷ [])
    ∷ (
      codes "eth0",
      record { family = codes "inet6"; address = codes "fd00::1" }
          ∷ record { family = codes "inet"; address = codes "10.0.0.2" }
          ∷ [],
    )
    ∷ []

first_address :
    addresses network
    ≡ record { address = codes "10.0.0.2"; interface = codes "eth0" }
      ∷ record { address = codes "fd00::1"; interface = codes "eth0" }
      ∷ record { address = codes "127.0.0.1"; interface = codes "lo" }
      ∷ []
unfolding addresses
first_address = refl

addresses-IsSorted_example :
    (infos : List AddressInfo) × AreInet (entries network) infos
    × Perm (addresses network) infos
    × IsSorted (addresses network)
addresses-IsSorted_example = addresses-IsSorted network

abbrev web : Instance
web = record {
  name = codes "web";
  status = codes "Running";
  type = codes "container";
  config = [];
  details = no_details;
}

abbrev listing : Listing.Incus
listing = record {
  connect = ok tt;
  get_projects = ok (codes "default" ∷ codes "team" ∷ []);
  get_instances = λ p. ok (web ∷ []);
  get_instance = λ p n. ok web;
  get_instance_state = λ p n. ok (record { network = network; status = codes "Running" });
  get_instance_metadata = λ p n. err (codes "none");
  get_os = λ p n. codes "Alpine";
}

list_instances-rows_example :
    rows_of (list_instances listing) ≡ rows_of (list_instances_detailed listing)
list_instances-rows_example = list_instances-rows listing
