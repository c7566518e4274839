-- ===== src/Shell/Session/Allowed.antt =====
-- What a session may create and run.
use ssh2incus.Base.Int.{ℤ, pos}
use ssh2incus.CreateConfig.{InstanceCreateConfig}
use ssh2incus.Base.{◌++◌, ◌≢◌, ℕ, ◌≡◌, ◌⊎◌, Bool, true, false, Option, none, some, []}
use ssh2incus.Base.Text.{Text, codes, atoi_value}
use ssh2incus.Base.Dict.{Dict}
use ssh2incus.LoginUser.{Login}
use ssh2incus.LoginUser.Valid.{InstanceUser}
use ssh2incus.CreateConfig.{CreateConfig}
use ssh2incus.CreateConfig.Maps.{Store}
use ssh2incus.CreateConfig.Merge.{apply_profiles}
use ssh2incus.Shell.{Request}
use ssh2incus.Shell.Create.{CreateInstanceParams}
use ssh2incus.Shell.Trace.{Event, ExecRequest, created, executed, Trace, Fits}
use ssh2incus.Shell.Wrapping.{needs_shell_wrapping}
use ssh2incus.Shell.Session.{ShellWorld, ShellConfig, found}

-- The login's own value, or else the config's, or else the zero.
abbrev pub IsChosen {ℓ} : {A : Type ℓ} → Option A → Option A → A → A → Type ℓ
IsChosen (some own) c z v = v ≡ own
IsChosen none (some given) z v = v ≡ given
IsChosen none none z v = v ≡ z

-- A config holds a number as a text, of which Atoi's value is taken, whatever its error.
abbrev pub IsNumber : Option ℤ → Option Text → ℤ → Type 0
IsNumber (some own) c v = v ≡ own
IsNumber none (some given) v = v ≡ atoi_value given
IsNumber none none v = v ≡ pos 0

-- What the map at an address holds, and nothing for a nil map.
abbrev pub Holds {ℓ} : {V : Type ℓ} → (ℕ → Dict V) → Option ℕ → Dict V → Type ℓ
Holds at none m = m ≡ []
Holds at (some a) m = m ≡ at a

-- Each parameter, from the merged config `c`, whose maps are in `s`, and from the login.
pub record IsParams (s : Store) (c : InstanceCreateConfig) (lu : Login) (p : CreateInstanceParams)
    : Type 0 where
  pub name : p.name ≡ lu.instance_name
  pub project : p.project ≡ lu.project
  pub image : IsChosen lu.create_config.image c.image [] p.image
  pub image_remote : p.image_remote ≡ []
  pub memory : IsNumber lu.create_config.memory c.memory p.memory
  pub cpu : IsNumber lu.create_config.cpu c.cpu p.cpu
  pub disk : IsNumber lu.create_config.disk c.disk p.disk
  pub ephemeral : IsChosen lu.create_config.ephemeral c.ephemeral false p.ephemeral
  pub nesting : IsChosen lu.create_config.nesting none false p.nesting
  pub privileged : IsChosen lu.create_config.privileged none false p.privileged
  pub vm : IsChosen lu.create_config.vm c.vm false p.vm
  pub init_only : p.init_only ≡ false
  pub config : Holds s.config_at c.config p.config
  pub devices : Holds s.devices_at c.devices p.devices

module _ (w : ShellWorld) (config : ShellConfig) (r : Request) (lu : Login) where
  -- Creation is allowed and asked for, the user was not found, and the parameters are read off the
  -- create config with the login's profiles applied.
  pub record IsCreation (p : CreateInstanceParams) : Type 0 where
    pub allowed : config.allow_create ≡ true
    pub asked : lu.create_instance ≡ true
    pub missing : found w.get_instance_user ≡ none
    pub loaded :
        (c c' : CreateConfig) × (s : Store) × (w.create_config ≡ some c)
        × (apply_profiles c lu.create_config.profiles w.store ≡ ((c', none), s))
        × IsParams s c'.active lu p

  -- The user that Incus answered.
  abbrev pub IsAnswer : InstanceUser → Type 0
  IsAnswer iu = (found w.get_instance_user ≡ some iu) ⊎ (found w.get_cached_instance_user ≡ some iu)

  -- The session of the multiplexer that carries the program's name: it is listed, made or attached to.
  abbrev pub IsMuxCommand : Text → Type 0
  IsMuxCommand cmd =
      ((config.term_mux ≡ codes "tmux")
        × ((cmd ≡ codes "tmux ls")
            ⊎ ((cmd ≡ codes "tmux new -s " ++ (config.app_name ++ codes " -d"))
                ⊎ (cmd ≡ codes "tmux a -t " ++ config.app_name))))
      ⊎ ((config.term_mux ≡ codes "screen")
          × ((cmd ≡ codes "screen -ls")
              ⊎ ((cmd ≡ codes "screen -dmS " ++ config.app_name)
                  ⊎ (cmd ≡ codes "screen -r " ++ config.app_name))))

  -- The client's own command, as it is or as an argument of the user's shell.
  abbrev pub IsClientCommand : InstanceUser → Text → Type 0
  IsClientCommand iu cmd =
      ((needs_shell_wrapping r.raw_command ≡ false) × (cmd ≡ r.raw_command))
      ⊎ ((needs_shell_wrapping r.raw_command ≡ true)
          × (cmd ≡ iu.shell ++ (codes " -c " ++ w.quoting.quote r.raw_command)))

  -- One of the commands that switch to the user on their own.
  abbrev pub IsSwitch : InstanceUser → Text → Type 0
  IsSwitch iu cmd =
      let user = w.quoting.quote iu.user in
      ((config.shell ≡ codes "su") × (cmd ≡ codes "su - " ++ user))
      ⊎ (((config.shell ≡ codes "sush") × (cmd ≡ codes "sush " ++ user))
          ⊎ ((config.shell ≡ codes "login")
              × (((r.remote_host ≡ none) × (cmd ≡ codes "login -f " ++ user))
                  ⊎ ((host : Text) × (r.remote_host ≡ some host)
                      × (cmd
                          ≡ codes "login -h "
                            ++ (w.quoting.quote host ++ (codes " -f " ++ user)))))))

  -- The login shell of the user, where no switch is configured.
  abbrev pub IsLoginShell : InstanceUser → Text → Type 0
  IsLoginShell iu cmd =
      (config.shell ≢ codes "su")
      × (config.shell ≢ codes "sush")
      × (config.shell ≢ codes "login")
      × (cmd ≡ iu.shell ++ codes " -l")

  -- What the session runs for a user, and whether it runs it as that user.
  abbrev pub IsCommand : InstanceUser → Text × Bool → Type 0
  IsCommand iu (cmd, as_user) =
      ((lu.persistent ≡ true) × IsMuxCommand cmd × (as_user ≡ true))
      ⊎ ((lu.persistent ≡ false)
          × (((r.raw_command ≢ []) × IsClientCommand iu cmd × (as_user ≡ true))
              ⊎ ((r.raw_command ≡ [])
                  × ((IsSwitch iu cmd × (as_user ≡ false))
                      ⊎ (IsLoginShell iu cmd × (as_user ≡ true))))))

  abbrev pub RunsAs : Bool → InstanceUser → ExecRequest → Type 0
  RunsAs true iu e = (e.uid ≡ iu.uid) × (e.gid ≡ iu.gid)
  RunsAs false iu e = (e.uid ≡ 0) × (e.gid ≡ 0)

  -- Run in the login's instance in the client's project, for a user that Incus answered.
  pub record IsExec (e : ExecRequest) : Type 0 where
    pub user : InstanceUser
    pub answer : IsAnswer user
    pub instance_name : e.instance_name ≡ lu.instance_name
    pub project : e.project ≡ w.client_project
    pub command : (as_user : Bool) × IsCommand user (e.cmd, as_user) × RunsAs as_user user e

  abbrev pub IsAllowedEvent : Event → Type 0
  IsAllowedEvent (created p) = IsCreation p
  IsAllowedEvent (executed e) = IsExec e
  IsAllowedEvent e = Unit

  abbrev pub Fine {ℓ} : {A : Type ℓ} → Trace A → Type 0
  Fine t = Fits IsAllowedEvent t

  -- A user that was found by then is Incus's answer.
  abbrev pub Answered : Option InstanceUser → Type 0
  Answered none = Unit
  Answered (some iu) = IsAnswer iu
