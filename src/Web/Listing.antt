-- ===== src/Web/Listing.antt =====
-- server/web-api.go: listInstancesHandler, listInstancesDetailedHandler and instanceDetailsHandler. Maps
-- of values that are only copied into the response stand as they are.
pub mod Agreement
use ssh2incus.Base.{Bool, false, not, Option, none, some, List, [], ◌∷◌, ◌++◌, if◌then◌else◌}
use ssh2incus.Base.Result.{Result, ok, err}
use ssh2incus.Base.Text.{Text, codes, is_empty, or_else}
use ssh2incus.Base.Dict.{Dict, lookup}
use ssh2incus.Web.Action.{instance_param}
use ssh2incus.Web.Addresses.{NetworkAddress, AddressInfo, addresses}

-- What api.Instance has and the table does not show.
pub record Details : Type 0 where
  pub architecture : Text
  pub created_at : Text
  pub ephemeral : Bool
  pub stateful : Bool
  pub location : Text
  pub profiles : List Text
  pub devices : Dict (Dict Text)
  pub expanded_devices : Dict (Dict Text)
  pub expanded_config : Dict Text

abbrev pub no_details : Details
no_details = record {
  architecture = [];
  created_at = [];
  ephemeral = false;
  stateful = false;
  location = [];
  profiles = [];
  devices = [];
  expanded_devices = [];
  expanded_config = [];
}

-- api.Instance
pub record Instance : Type 0 where
  pub name : Text
  pub status : Text
  pub type : Text
  pub config : Dict Text
  pub details : Details

-- api.InstanceState
pub record InstanceState : Type 0 where
  pub network : Dict (List NetworkAddress)
  pub status : Text

pub record InstanceInfo : Type 0 where
  pub name : Text
  pub project : Text
  pub status : Text
  pub type : Text
  pub os : Text
  pub addresses : List AddressInfo
  pub config : Dict Text
  pub details : Details
  pub state : Option InstanceState
  pub metadata : Dict Text

-- The answers of Incus. `get_os` is GetOS of the client, with the empty text beside an error; the
-- metadata are `none` for a nil pointer.
pub record Incus : Type 0 where
  pub connect : Result (Unit {0})
  pub get_projects : Result (List Text)
  pub get_instances : Text → Result (List Instance)
  pub get_instance : Text → Text → Result Instance
  pub get_instance_state : Text → Text → Result InstanceState
  pub get_instance_metadata : Text → Text → Result (Option (Dict Text))
  pub get_os : Text → Text → Text

abbrev pub metadata_of : Result (Option (Dict Text)) → Dict Text
metadata_of (err m) = []
metadata_of (ok none) = []
metadata_of (ok (some properties)) = properties

-- image.os of the configuration, or what is found in the instance where that is missing or empty.
unfoldable pub os_name : Incus → Text → Instance → Text
unfolding lookup
os_name i project inst =
    let os = or_else (lookup (codes "image.os") inst.config) [] in
    if is_empty os then i.get_os project inst.name else os

abbrev pub image_type : Option Text → Dict Text
image_type none = []
image_type (some t) = (codes "image.type", t) ∷ []

unfoldable pub table_info : Incus → Text → Instance → InstanceState → InstanceInfo
unfolding os_name addresses lookup
table_info i project inst state = record {
  name = inst.name;
  project = project;
  status = inst.status;
  type = inst.type;
  os = os_name i project inst;
  addresses = addresses state.network;
  config = image_type (lookup (codes "image.type") inst.config);
  details = no_details;
  state = none;
  metadata = [];
}

unfoldable pub detailed_info : Incus → Text → Text → Instance → InstanceState → InstanceInfo
unfolding addresses
detailed_info i os project inst state = record {
  name = inst.name;
  project = project;
  status = inst.status;
  type = inst.type;
  os = os;
  addresses = addresses state.network;
  config = inst.config;
  details = inst.details;
  state = some state;
  metadata = metadata_of (i.get_instance_metadata project inst.name);
}

module _ (i : Incus) (info : Text → Instance → InstanceState → InstanceInfo) where
  abbrev pub add_info :
      Text → Instance → Result InstanceState → List InstanceInfo → List InstanceInfo
  add_info project inst (err m) rest = rest
  add_info project inst (ok state) rest = info project inst state ∷ rest

  -- An instance whose state is an error is skipped.
  unfoldable pub list_project : Text → List Instance → List InstanceInfo
  list_project project [] = []
  list_project project (inst ∷ insts) =
      add_info project inst (i.get_instance_state project inst.name) (list_project project insts)

  abbrev pub list_answer : Text → Result (List Instance) → List InstanceInfo
  list_answer project (err m) = []
  list_answer project (ok insts) = list_project project insts

  -- A project whose instances are an error is skipped.
  unfoldable pub list_projects : List Text → List InstanceInfo
  unfolding list_project
  list_projects [] = []
  list_projects (project ∷ projects) =
      list_answer project (i.get_instances project) ++ list_projects projects

  abbrev pub list_all : Result (List Text) → Result (List InstanceInfo)
  list_all (err m) = err (codes "Failed to get projects: " ++ m)
  list_all (ok projects) = ok (list_projects projects)

abbrev pub connected : {A : Type 0} → Result (Unit {0}) → Result A → Result A
connected (err m) r = err (codes "Failed to connect to Incus: " ++ m)
connected (ok u) r = r

-- An error is the response with the status 500.
unfoldable pub list_instances : Incus → Result (List InstanceInfo)
unfolding list_projects table_info
list_instances i = connected i.connect (list_all i (table_info i) i.get_projects)

-- The detailed list leaves the operating system empty.
unfoldable pub list_instances_detailed : Incus → Result (List InstanceInfo)
unfolding list_projects detailed_info
list_instances_detailed i = connected i.connect (list_all i (detailed_info i []) i.get_projects)

-- The status of an error stands before its message.
abbrev pub stated : Incus → Text → Instance → Result InstanceState → Result InstanceInfo
stated i project inst (err m) = err (codes "500 Failed to get instance state: " ++ m)
stated i project inst (ok state) = ok (detailed_info i (os_name i project inst) project inst state)

abbrev pub found : Incus → Text → Text → Result Instance → Result InstanceInfo
found i project name (err m) = err (codes "404 Instance not found: " ++ m)
found i project name (ok inst) = stated i project inst (i.get_instance_state project name)

abbrev pub details_of : Incus → Text × Text → Result InstanceInfo
details_of i (name, project) = found i project name (i.get_instance project name)

unfoldable pub instance_details : Incus → Text → Result InstanceInfo
unfolding instance_param detailed_info os_name
instance_details i instance = connected i.connect (details_of i (instance_param instance))
