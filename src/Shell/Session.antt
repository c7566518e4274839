-- ===== src/Shell/Session.antt =====
-- server/shell.go, shellHandler from the connection on, and checkTermMux. The answers of Incus, of the
-- agent listener and of the file of create configs are parameters; a failed print is ignored, as in
-- the code.
pub mod Allowed
pub mod Create
pub mod Users
pub mod Order
use ssh2incus.Base.{
  ℕ, zero, suc, ◌≡◌, ◌≢◌, refl, sym, ap, ◌∙◌, ◌↔◌, ◌⊎◌, inl, inr, Bool, true, false, not, ◌&&◌,
  ◌||◌, Option, none, some, List, [], ◌∷◌, ◌++◌, String, ltb, leb, ◌==◌, if◌then◌else◌, ◌+◌, ◌-◌,
  ◌*◌, ◌/◌, ◌%◌, ◌^◌, ◌≤◌, ◌<◌, length, All, arith, Bool-cases, Option-cases,
}
use ssh2incus.Base.Int.{ℤ, pos, negsuc, positive, negate}
use ssh2incus.Base.Result.{Result, ok, err}
use ssh2incus.Base.Text.{
  Text, codes, text_eq, is_empty, starts_with_byte, cut_prefix, is_some, or_else, has_prefix,
  trim_prefix, cut, split, join, contains, contains_byte, replace_all, atoi,
}
use ssh2incus.Base.Dict.{Dict, insert}
use ssh2incus.LoginUser.{Login}
use ssh2incus.LoginUser.Valid.{InstanceUser}
use ssh2incus.CreateConfig.{CreateConfig}
use ssh2incus.CreateConfig.Maps.{Store}
use ssh2incus.CreateConfig.Merge.{apply_profiles}
use ssh2incus.Shell.{Request, Quoting, setup_environment_variables, build_command_string}
use ssh2incus.Shell.Mux.{TermMux, new_term_mux, mux_name, list, new_command, attach, session_exists}
use ssh2incus.Shell.Create.{CreateInstanceParams, create_params}
use ssh2incus.Shell.Trace.{
  Trace, done, next, ◌>>=◌, ◌>>◌, emit, pure, exit, panic, Event, ExecRequest, connected, printed,
  asked_user, slept, created, added_socket, installed, executed, exited, Deferred, disconnect,
  close_listener, start_shutdown, close_pipes, close_window, added_device, deferred, ran, events,
}

-- The configuration that the handler reads.
pub record ShellConfig : Type 0 where
  pub allow_create : Bool
  pub shell : Text
  pub term_mux : Text
  pub app_name : Text
  pub welcome : Bool

-- The answers, in the order of the questions. `poll` answers the turns of the waiting loop.
pub record ShellWorld : Type 0 where
  pub quoting : Quoting
  pub connect : Text → Result (Unit {0})
  pub get_instance_user : Result (Option InstanceUser)
  pub create_config : Option CreateConfig
  pub store : Store
  pub create_instance : CreateInstanceParams → Result (Unit {0})
  pub poll : ℕ → Result (Option InstanceUser)
  pub get_cached_instance_user : Result (Option InstanceUser)
  pub agent_listener : Result Text
  pub add_socket : Result Text
  pub command_exists : Text → Bool
  pub install_packages : Text → Result (Unit {0})
  pub list_lines : List Text
  pub welcome_text : InstanceUser → Text
  pub exit_code : ℤ
  -- Where the client of the context stands when the session's commands are run.
  pub client_project : Text

-- The value beside an error is nil.
abbrev pub found : Result (Option InstanceUser) → Option InstanceUser
found (ok iu) = iu
found (err m) = none

-- The call that an event defers.
abbrev pub deferred_call : Event → Option Deferred
deferred_call (deferred d) = some d
deferred_call e = none

abbrev pub run_before : Option Deferred → List Event → List Event
run_before none later = later
run_before (some d) later = ran d ∷ later

-- The deferred calls, the last one first, before those of `later`.
unfoldable pub unwind : List Event → List Event → List Event
unwind [] later = later
unwind (e ∷ es) later = unwind es (run_before (deferred_call e) later)

module _ (w : ShellWorld) (config : ShellConfig) (r : Request) (lu : Login) where
  -- for i := range 20; `i` is the turn, and the first number the turns that are left.
  unfoldable pub wait_for_user : ℕ → ℕ → Trace (Unit {0})
  wait_for_user zero i = pure tt
  wait_for_user (suc n) i =
      let rest = wait_for_user n (suc i) in
      do
        emit (slept (i / 10 + 1))
        emit asked_user
        if is_some (found (w.poll i)) then pure tt else rest

  unfoldable pub wait_unless_root : Trace (Unit {0})
  unfolding wait_for_user
  wait_unless_root = if text_eq lu.instance_user (codes "root") then pure tt else wait_for_user 20 0

  abbrev pub after_create : Result (Unit {0}) → Trace (Unit {0})
  after_create (err m) = emit (printed m) >> exit (pos 20)
  after_create (ok u) = wait_unless_root

  -- CreateInstance and what follows it.
  unfoldable pub create_with : CreateInstanceParams → Trace (Unit {0})
  unfolding wait_unless_root
  create_with params = do emit (created params); after_create (w.create_instance params)

  abbrev pub after_profiles : (CreateConfig × Option Text) × Store → Trace (Unit {0})
  after_profiles ((c, some name), s) = emit (printed name) >> exit (pos 255)
  after_profiles ((c, none), s) = create_with (create_params s c lu)

  -- A nil create config makes ApplyProfiles panic.
  unfoldable pub create_instance : Option CreateConfig → Trace (Unit {0})
  unfolding create_with apply_profiles create_params
  create_instance none = panic
  create_instance (some c) = after_profiles (apply_profiles c lu.create_config.profiles w.store)

  unfoldable pub create_unless_found : Option InstanceUser → Trace (Option InstanceUser)
  unfolding create_instance
  create_unless_found (some iu) = pure (some iu)
  create_unless_found none = do
    emit (printed (codes "creating instance...\r\n"))
    create_instance w.create_config
    pure none

  unfoldable pub ensure_instance : Trace (Option InstanceUser)
  unfolding create_unless_found
  ensure_instance =
      if not lu.create_instance
      then pure none
      else if not config.allow_create
      then emit (printed (codes "\r\nInstance creation not allowed\r\n")) >> exit (pos 1)
      else (emit asked_user >> create_unless_found (found w.get_instance_user))

  abbrev pub cached_user : Result (Option InstanceUser) → Trace InstanceUser
  cached_user (err m) = emit (printed (codes "\r\ncannot get instance user\r\n")) >> exit (pos 1)
  cached_user (ok none) =
      emit (printed (codes "\r\nnot found user or instance\r\n")) >> exit (pos 1)
  cached_user (ok (some iu)) = pure iu

  unfoldable pub find_user : Option InstanceUser → Trace InstanceUser
  find_user (some iu) = pure iu
  find_user none = emit asked_user >> cached_user w.get_cached_instance_user

  -- A socket that was added is registered as a device, and is shut down at the end.
  unfoldable pub agent_env : Dict Text → Result Text → Trace (Dict Text)
  unfolding insert
  agent_env env (err m) = emit (printed (codes "\r\nfailed to setup agent socket\r\n")) >> pure env
  agent_env env (ok socket) = do
    emit added_device
    emit (deferred start_shutdown)
    pure (insert (codes "SSH_AUTH_SOCK") socket env)

  -- A listener that failed is nil, and closing it panics as soon as that is to be deferred.
  unfoldable pub forward_agent : Dict Text → Result Text → Trace (Dict Text)
  unfolding agent_env
  forward_agent env (err m) = emit (printed (codes "\r\nfailed to setup agent\r\n")) >> panic
  forward_agent env (ok address) = do
    emit (deferred close_listener)
    emit (added_socket address)
    agent_env env w.add_socket

  unfoldable pub setup_agent : Dict Text → Trace (Dict Text)
  unfolding forward_agent
  setup_agent env = if r.agent_requested then forward_agent env w.agent_listener else pure env

  unfoldable pub as_user : InstanceUser → Text → Dict Text → Text → ExecRequest
  as_user iu cmd env cwd = record {
    project = w.client_project;
    instance_name = lu.instance_name;
    cmd = cmd;
    env = env;
    is_pty = false;
    uid = iu.uid;
    gid = iu.gid;
    cwd = cwd;
  }

  unfoldable pub start_session : TermMux → InstanceUser → Dict Text → Trace (Unit {0})
  unfolding as_user list new_command session_exists
  start_session mux iu env = do
    emit (executed (as_user iu (list mux) [] []))
    (if session_exists mux w.list_lines
        then pure tt
        else emit (executed (as_user iu (new_command mux) env iu.dir)))

  abbrev pub after_install :
      TermMux → InstanceUser → Dict Text → Result (Unit {0}) → Trace (Unit {0})
  after_install mux iu env (err m) =
      emit (printed (codes "\r\nfailed to create persistent session:\r\n" ++ m))
  after_install mux iu env (ok u) = start_session mux iu env

  -- An install that failed ends checkTermMux.
  unfoldable pub check_term_mux : TermMux → InstanceUser → Dict Text → Trace (Unit {0})
  unfolding start_session mux_name
  check_term_mux mux iu env =
      if w.command_exists (mux_name mux) then start_session mux iu env else do
        emit (printed (codes "\r\ninstalling " ++ (mux_name mux ++ codes "...\r\n\n")))
        emit (installed (mux_name mux))
        after_install mux iu env (w.install_packages (mux_name mux))

  -- The error of checkTermMux is only printed. A multiplexer that failed is nil, and its name panics.
  unfoldable pub attach_mux : InstanceUser → Dict Text → Result TermMux → Trace (Text × Bool)
  unfolding check_term_mux attach
  attach_mux iu env (err m) =
      emit (printed (codes "\r\nfailed to create persistent session\r\n")) >> panic
  attach_mux iu env (ok mux) = check_term_mux mux iu env >> pure (attach mux, true)

  unfoldable pub session_command : InstanceUser → Dict Text → Trace (Text × Bool)
  unfolding attach_mux build_command_string new_term_mux
  session_command iu env =
      if lu.persistent
      then attach_mux iu env (new_term_mux config.term_mux config.app_name false)
      else pure (build_command_string w.quoting config.shell r iu)

  unfoldable pub exec_request : InstanceUser → Dict Text → Text → Bool → ExecRequest
  exec_request iu env cmd run_as_user = record {
    project = w.client_project;
    instance_name = lu.instance_name;
    cmd = cmd;
    env = env;
    is_pty = r.is_pty;
    uid = if run_as_user then iu.uid else 0;
    gid = if run_as_user then iu.gid else 0;
    cwd = iu.dir;
  }

  unfoldable pub greet : InstanceUser → Trace (Unit {0})
  greet iu =
      if config.welcome && r.is_pty && is_empty r.raw_command && not (is_empty (w.welcome_text iu))
      then emit (printed (w.welcome_text iu))
      else pure tt

  -- From the PTY on, for the user that was found.
  unfoldable pub run_session : InstanceUser → Trace ⊥
  unfolding setup_environment_variables setup_agent session_command exec_request greet
  run_session iu = do
    env ← setup_agent (setup_environment_variables r iu)
    command ← session_command iu env
    greet iu
    emit (deferred close_pipes)
    emit (deferred close_window)
    emit (executed (exec_request iu env command.0 command.1))
    exit w.exit_code

  unfoldable pub serve_session_with : Result (Unit {0}) → Trace ⊥
  unfolding ensure_instance find_user run_session
  serve_session_with (err m) = exit (pos 255)
  serve_session_with (ok u) = do
    emit (deferred disconnect)
    iu ← ensure_instance
    found_user ← find_user iu
    run_session found_user

  -- The body of the handler.
  unfoldable pub serve_session : Trace ⊥
  unfolding serve_session_with
  serve_session = emit (connected lu.remote) >> serve_session_with (w.connect lu.remote)

  -- What the handler does: its body, and then the calls that it deferred.
  unfoldable pub session_events : List Event
  unfolding serve_session unwind
  session_events = events serve_session ++ unwind (events serve_session) []
