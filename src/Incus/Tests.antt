-- ===== src/Incus/Tests.antt =====
-- A server, parameters and devices that the theorems on the client apply to.
use ssh2incus.Base.{◌≡◌, refl, true, false, Option, some, [], ◌∷◌, if◌then◌else◌, arith}
use ssh2incus.Base.Int.{pos}
use ssh2incus.Base.Result.{ok, err}
use ssh2incus.Base.Text.{Text, codes, text_eq}
use ssh2incus.Base.Dict.{Dict, lookup}
use ssh2incus.Shell.Create.{CreateInstanceParams}
use ssh2incus.Incus.{Server, ClientState}
use ssh2incus.Incus.Devices.{IsMap}

abbrev pub params : CreateInstanceParams
params = record {
  name = codes "web";
  project = codes "team";
  image = codes "alpine/3.22";
  image_remote = [];
  memory = pos 4;
  cpu = pos 2;
  disk = pos 0;
  ephemeral = false;
  nesting = true;
  privileged = false;
  vm = false;
  init_only = false;
  config = [];
  devices = [];
}

-- There is no project with the name of the instance, and the instance exists.
abbrev pub server : Server
server = record {
  get_project = λ p. if text_eq p (codes "web") then err (codes "not found") else ok p;
  get_instance = λ p n. ok n;
  get_profile = λ p. ok ((codes "root", []) ∷ []);
  local_image = λ p i. ok i;
  remote_image = λ i. ok i;
  create_from_image = λ p post. ok tt;
  start = λ p n. ok tt;
}

abbrev pub new_client : ClientState
new_client = record { project = []; used = codes "default" }

pub named : (p n : Text) → server.get_project p ≡ ok n → n ≡ p
named p n h = ground arith

abbrev root_device : Dict (Option (Dict Text))
root_device = (codes "root", some ((codes "pool", codes "fast") ∷ [])) ∷ []

root_device-IsMap : IsMap root_device
unfolding IsMap lookup
root_device-IsMap = (refl, tt)
