-- ===== src/Incus.antt =====
-- pkg/incus/incus.go and pkg/incus/instance.go: the client's project and the creation of instances. The
-- server of Incus and the image server are parameters; what is asked of them that changes something is
-- recorded as calls.
pub mod Project
pub mod Exec
pub mod OsInfo
pub mod Users
pub mod Files
pub mod Devices
pub mod Limits
pub mod Tests
use ssh2incus.Base.{Bool, true, false, ◌||◌, Option, none, some, List, [], ◌∷◌, ◌++◌, if◌then◌else◌}
use ssh2incus.Base.Int.{positive}
use ssh2incus.Base.Result.{Result, ok, err}
use ssh2incus.Base.Text.{Text, codes, text_eq, is_empty, or_else, contains}
use ssh2incus.Base.Dict.{Dict, lookup, insert, write_all}
use ssh2incus.Base.Text.Numbers.{show_int}
use ssh2incus.Shell.Create.{CreateInstanceParams}

-- api.InstancesPost
pub record InstancesPost : Type 0 where
  pub name : Text
  pub is_vm : Bool
  pub alias : Text
  pub config : Dict Text
  pub devices : Dict (Dict Text)
  pub ephemeral : Bool

-- The server, in the project that is in use. `image` is the answer about an alias of an image, from the
-- server itself or from the remote `images`.
pub record Server : Type 0 where
  pub get_project : Text → Result Text
  pub get_instance : Text → Text → Result Text
  pub get_profile : Text → Result (Dict (Dict Text))
  pub local_image : Text → Text → Result Text
  pub remote_image : Text → Result Text
  pub create_from_image : Text → InstancesPost → Result (Unit {0})
  pub start : Text → Text → Result (Unit {0})

-- c.project, and the project that c.srv uses.
pub record ClientState : Type 0 where
  pub project : Text
  pub used : Text

pub data Call : Type 0 where
  created_from_image : (project : Text) (post : InstancesPost) → Call
  started : (project name : Text) → Call

-- A method of the client.
abbrev pub Method {ℓ} : Type ℓ → Type ℓ
Method A = ClientState → Result A × ClientState × List Call

abbrev pub with_calls {ℓ} :
    {A : Type ℓ}
    → List Call
    → Result A × ClientState × List Call
    → Result A × ClientState × List Call
with_calls cs (r, st, ds) = (r, st, cs ++ ds)

abbrev pub continue {ℓ κ} :
    {A : Type ℓ} {B : Type κ}
    → (A → Method B)
    → Result A × ClientState × List Call
    → Result B × ClientState × List Call
continue f (ok a, st, cs) = with_calls cs (f a st)
continue f (err m, st, cs) = (err m, st, cs)

infixl 10 ◌>>=◌ ◌>>◌
abbrev pub ◌>>=◌ {ℓ κ} : {A : Type ℓ} {B : Type κ} → Method A → (A → Method B) → Method B
(m >>= f) st = continue f (m st)

abbrev pub ◌>>◌ {ℓ κ} : {A : Type ℓ} {B : Type κ} → Method A → Method B → Method B
m >> k = m >>= λ _. k

abbrev pub result {ℓ} : {A : Type ℓ} → Result A → Method A
result r st = (r, st, [])

abbrev pub default_project : Text → Text
default_project project = if is_empty project then codes "default" else project

abbrev pub use_named : Result Text → Method (Unit {0})
use_named (err m) st = (err m, st, [])
use_named (ok name) st = (ok tt, record { project = name; used = name }, [])

unfoldable pub use_project : Server → Text → Method (Unit {0})
use_project sv project st =
    if text_eq (default_project project) st.project
    then (ok tt, st, [])
    else use_named (sv.get_project (default_project project)) st

abbrev pub ask_instance : Server → Text → Method Text
ask_instance sv name st = (sv.get_instance st.used name, st, [])

unfoldable pub get_instance : Server → Text → Text → Method Text
unfolding use_project
get_instance sv project name = use_project sv project >> ask_instance sv name

abbrev pub exists_answer : Result Text → Result Bool
exists_answer (ok i) = ok true
exists_answer (err m) = if contains (codes "not found") m then ok false else err m

abbrev pub ask_exists : Server → Text → Method Bool
ask_exists sv name st = (exists_answer (sv.get_instance st.used name), st, [])

unfoldable pub instance_exists : Server → Text → Text → Method Bool
unfolding use_project
instance_exists sv name project = use_project sv project >> ask_exists sv name

unfoldable pub is_default_project : Text → Bool
is_default_project project = is_empty project || text_eq project (codes "default")

-- The keys that a container gets, and the limits that both get.
unfoldable pub security_config : CreateInstanceParams → Dict Text → Dict Text
unfolding insert
security_config p config =
    let privileged =
      if p.privileged then insert (codes "security.privileged") (codes "true") config else config in
    if p.vm
    then config
    else if p.nesting
    then insert (codes "security.syscalls.intercept.setxattr") (codes "true") (
        insert (codes "security.syscalls.intercept.mknod") (codes "true")
          (insert (codes "security.nesting") (codes "true") privileged))
    else privileged

unfoldable pub memory_config : CreateInstanceParams → Dict Text → Dict Text
unfolding insert
memory_config p config =
    if positive p.memory
    then insert (codes "limits.memory") (show_int p.memory ++ codes "GiB") config
    else config

unfoldable pub cpu_config : CreateInstanceParams → Dict Text → Dict Text
unfolding insert
cpu_config p config =
    if positive p.cpu then insert (codes "limits.cpu") (show_int p.cpu) config else config

unfoldable pub create_config : CreateInstanceParams → Dict Text
unfolding security_config memory_config cpu_config
create_config p = cpu_config p (memory_config p (security_config p p.config))

-- A nil map has no entries.
abbrev pub entries : Option (Dict Text) → Dict Text
entries none = []
entries (some d) = d

unfoldable pub merge_entries : Dict (Option (Dict Text)) → Dict (Dict Text) → Dict (Dict Text)
unfolding insert lookup write_all
merge_entries [] result = result
merge_entries ((k, v) ∷ d) result =
    let result' = merge_entries d result in
    insert k (write_all (entries v) (or_else (lookup k result') [])) result'

-- mergeDevices; the copy of the first map is that map.
unfoldable pub merge_devices : Dict (Dict Text) → Dict (Option (Dict Text)) → Dict (Dict Text)
unfolding merge_entries
merge_devices d1 d2 = merge_entries d2 d1

abbrev pub sized : CreateInstanceParams → Dict Text → Dict Text
unfolding insert show_int
sized p root =
    if positive p.disk then insert (codes "size") (show_int p.disk ++ codes "GiB") root else root

abbrev pub set_root :
    CreateInstanceParams → Dict (Dict Text) → Option (Dict Text) → Dict (Dict Text)
unfolding insert sized
set_root p devices none = devices
set_root p devices (some root) = insert (codes "root") (sized p root) devices

unfoldable pub with_root_size : CreateInstanceParams → Dict (Dict Text) → Dict (Dict Text)
unfolding set_root lookup
with_root_size p devices = set_root p devices (lookup (codes "root") devices)

unfoldable pub post_of : CreateInstanceParams → Dict (Dict Text) → InstancesPost
unfolding create_config merge_devices with_root_size
post_of p profile = record {
  name = p.name;
  is_vm = p.vm;
  alias = p.image;
  config = create_config p;
  devices = with_root_size p (merge_devices profile p.devices);
  ephemeral = p.ephemeral;
}

abbrev pub find_image : Server → CreateInstanceParams → Method Text
find_image sv p st = (
  if text_eq p.image_remote (codes "local")
      then sv.local_image st.used p.image
      else sv.remote_image p.image,
  st,
  [],
)

abbrev pub send_create : Server → InstancesPost → Method (Unit {0})
send_create sv post st =
    (sv.create_from_image st.used post, st, created_from_image st.used post ∷ [])

abbrev pub send_start : Server → Text → Method (Unit {0})
send_start sv name st = (sv.start st.used name, st, started st.used name ∷ [])

abbrev pub get_default_profile : Server → Method (Dict (Dict Text))
get_default_profile sv st = (sv.get_profile st.used, st, [])

abbrev pub start_unless : Bool → Server → Text → Method (Unit {0})
start_unless true sv name = result (ok tt)
start_unless false sv name = send_start sv name

-- CreateInstance below its test for an existing instance.
unfoldable pub create_checked : Server → CreateInstanceParams → Method Text
unfolding use_project post_of get_instance
create_checked sv p = do
  use_project sv p.project
  profile ← get_default_profile sv
  image ← find_image sv p
  send_create sv (post_of p profile)
  start_unless p.init_only sv p.name
  get_instance sv p.project p.name

-- An instance that is found is a refusal, and an error is none.
abbrev pub refuse_found :
    Server
    → CreateInstanceParams
    → Result Text × ClientState × List Call
    → Result Text × ClientState × List Call
refuse_found sv p (ok i, st, cs) = (err (codes "instance already exists"), st, cs)
refuse_found sv p (err m, st, cs) = with_calls cs (create_checked sv p st)

-- The code asks for the project `p.name` and in it for the instance `p.project`.
unfoldable pub create_instance : Server → CreateInstanceParams → Method Text
unfolding get_instance create_checked
create_instance sv p st = refuse_found sv p (get_instance sv p.name p.project st)
