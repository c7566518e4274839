-- ===== src/Web/Create.antt =====
-- server/web-api.go, createInstanceHandler and instanceExistsHandler: the client's methods with their
use ssh2incus.Base.Dict.{write_all, Dict}
-- changes of the client's project are those of `Incus`.
pub mod Guard
use ssh2incus.Base.{Bool, true, false, ◌||◌, Option, none, some, List, [], ◌++◌, if◌then◌else◌}
use ssh2incus.Base.Int.{ℤ}
use ssh2incus.Base.Result.{Result, ok, err}
use ssh2incus.Base.Text.{Text, codes, is_empty, cut}
use ssh2incus.Incus.{Server, ClientState, Call, instance_exists, create_instance}
use ssh2incus.Shell.Create.{CreateInstanceParams}
use ssh2incus.Web.Action.{Response, failed, refused, instance_param}

pub record CreateInstanceRequest : Type 0 where
  pub name : Text
  pub project : Text
  pub image : Text
  pub memory : ℤ
  pub cpu : ℤ
  pub disk : ℤ
  pub ephemeral : Bool
  pub config : Dict Text
  pub devices : Dict (Option (Dict Text))
  pub init_only : Bool

-- The remote and the image of `remote:image`.
abbrev pub remote_image : Text → Option (Text × Text) → Text × Text
remote_image image none = ([], image)
remote_image image (some (r, i)) = (r, i)

unfoldable pub request_params : CreateInstanceRequest → CreateInstanceParams
unfolding cut write_all
request_params req =
    let (remote, image) = remote_image req.image (cut b':' req.image) in
    record {
      name = req.name;
      project = req.project;
      image = image;
      image_remote = remote;
      memory = req.memory;
      cpu = req.cpu;
      disk = req.disk;
      ephemeral = req.ephemeral;
      nesting = false;
      privileged = false;
      vm = false;
      init_only = req.init_only;
      config = write_all req.config [];
      devices = write_all req.devices [];
    }

unfoldable pub lacks_required : CreateInstanceRequest → Bool
lacks_required req = is_empty req.name || is_empty req.project || is_empty req.image

abbrev pub Handled : Type 0
Handled = Response × ClientState × List Call

abbrev pub created_response : Result Text × ClientState × List Call → Handled
created_response (ok i, st, cs) = (record { status = 201; message = i }, st, cs)
created_response (err m, st, cs) = (failed (codes "Failed to create instance: " ++ m), st, cs)

abbrev pub after_calls : List Call → Handled → Handled
after_calls cs (r, st, ds) = (r, st, cs ++ ds)

abbrev pub create_unless_found :
    Server → CreateInstanceRequest → Result Bool × ClientState × List Call → Handled
create_unless_found sv req (err m, st, cs) = (failed (codes "Failed to check instance"), st, cs)
create_unless_found sv req (ok true, st, cs) =
    (record { status = 409; message = codes "instance already exists" }, st, cs)
create_unless_found sv req (ok false, st, cs) =
    after_calls cs (created_response (create_instance sv (request_params req) st))

abbrev pub create_connected :
    Server → Result (Unit {0}) → CreateInstanceRequest → ClientState → Handled
create_connected sv (err m) req st = (failed (codes "Failed to connect to Incus"), st, [])
create_connected sv (ok u) req st =
    create_unless_found sv req (instance_exists sv req.name req.project st)

-- `connect` is the answer to NewDefaultIncusClientWithContext, `st` the state of its client; `none` is a
-- body that c.Bind refuses.
unfoldable pub create_instance_handler :
    Server → Result (Unit {0}) → ClientState → Option CreateInstanceRequest → Handled
unfolding lacks_required create_instance instance_exists request_params
create_instance_handler sv connect st none = (refused (codes "Invalid request body"), st, [])
create_instance_handler sv connect st (some req) =
    if lacks_required req
    then (refused (codes "name, project, and image are required"), st, [])
    else create_connected sv connect req st

abbrev pub exists_text : Bool → Text
exists_text true = codes "true"
exists_text false = codes "false"

abbrev pub exists_response : Result Bool × ClientState × List Call → Handled
exists_response (ok b, st, cs) = (record { status = 200; message = exists_text b }, st, cs)
exists_response (err m, st, cs) = (failed (codes "Failed to check instance: " ++ m), st, cs)

unfoldable pub instance_exists_handler : Server → Result (Unit {0}) → ClientState → Text → Handled
unfolding instance_param instance_exists
instance_exists_handler sv (err m) st instance =
    (failed (codes "Failed to connect to Incus"), st, [])
instance_exists_handler sv (ok u) st instance =
    let (name, project) = instance_param instance in
    exists_response (instance_exists sv name project st)
