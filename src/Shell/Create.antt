-- ===== src/Shell/Create.antt =====
-- server/shell.go, shellHandler: the parameters of an instance to be created.
use ssh2incus.Base.{Bool, false, Option, []}
use ssh2incus.Base.Int.{ℤ}
use ssh2incus.Base.Text.{Text, or_else}
use ssh2incus.Base.Dict.{Dict}
use ssh2incus.LoginUser.{Login, LoginCreateConfig}
use ssh2incus.CreateConfig.{CreateConfig, image, memory, cpu, disk, ephemeral, vm, config, devices}
use ssh2incus.CreateConfig.Maps.{Store}

-- pkg/incus/instance.go
pub record CreateInstanceParams : Type 0 where
  pub name : Text
  pub project : Text
  pub image : Text
  pub image_remote : Text
  pub memory : ℤ
  pub cpu : ℤ
  pub disk : ℤ
  pub ephemeral : Bool
  pub nesting : Bool
  pub privileged : Bool
  pub vm : Bool
  pub init_only : Bool
  pub config : Dict Text
  pub devices : Dict (Option (Dict Text))

-- The literal incus.CreateInstanceParams{…}: fields that are not named are zero.
unfoldable pub config_params : Store → CreateConfig → Login → CreateInstanceParams
unfolding image memory cpu disk ephemeral vm config devices
config_params s c lu = record {
  name = lu.instance_name;
  project = lu.project;
  image = image c;
  image_remote = [];
  memory = memory c;
  cpu = cpu c;
  disk = disk c;
  ephemeral = ephemeral c;
  nesting = false;
  privileged = false;
  vm = vm c;
  init_only = false;
  config = config s c;
  devices = devices s c;
}

-- The eight overrides: a pointer of the login that is not nil wins.
unfoldable pub override : LoginCreateConfig → CreateInstanceParams → CreateInstanceParams
override o p = record p {
  image = or_else o.image p.image;
  memory = or_else o.memory p.memory;
  cpu = or_else o.cpu p.cpu;
  disk = or_else o.disk p.disk;
  ephemeral = or_else o.ephemeral p.ephemeral;
  nesting = or_else o.nesting p.nesting;
  privileged = or_else o.privileged p.privileged;
  vm = or_else o.vm p.vm;
}

unfoldable pub create_params : Store → CreateConfig → Login → CreateInstanceParams
unfolding config_params override
create_params s c lu = override lu.create_config (config_params s c lu)
