-- ===== src/Shell.antt =====
-- server/shell.go: what the handler of sessions does with a login, the environment and the command of
-- a session. The pipes, the window channel and the copying of bytes are left out.
pub mod Wrapping
pub mod Environment
pub mod Unwrapped
pub mod Mux
pub mod Create
pub mod Trace
pub mod Session
pub mod Handler
pub mod Remove
pub mod Explain
pub mod Tests
use ssh2incus.Base.{
  Bool, true, false, not, Option, none, some, List, [], ◌∷◌, ◌++◌, if◌then◌else◌, ◌-◌,
}
use ssh2incus.Base.Text.{Text, codes, text_eq, is_empty, is_some, cut, replace_all}
use ssh2incus.Base.Dict.{Dict, lookup, insert}
use ssh2incus.LoginUser.{Login, is_command}
use ssh2incus.LoginUser.Valid.{InstanceUser}
use Wrapping.{needs_shell_wrapping}

-- The tests at the top of shellHandler, in their order.
pub data Dispatch : Type 0 where
  invalid_login : Dispatch
  incus_shell : Dispatch
  remove_instance : Dispatch
  explain_login : Dispatch
  not_allowed : Dispatch
  open_session : Dispatch

unfoldable pub dispatch : Bool → Login → Dispatch
unfolding is_command
dispatch valid lu =
    let below =
      if text_eq lu.command (codes "explain")
      then explain_login
      else if is_command lu
      then not_allowed
      else open_session in
    if not valid
    then invalid_login
    else if not (text_eq lu.user (codes "root"))
    then below
    else if text_eq lu.command (codes "shell")
    then incus_shell
    else if text_eq lu.command (codes "remove")
    then remove_instance
    else below

-- Of a session: its environment, its command, its terminal, its id and its client's address.
pub record Request : Type 0 where
  pub environ : List Text
  pub raw_command : Text
  pub term : Text
  pub is_pty : Bool
  pub session_id : Text
  pub agent_requested : Bool
  -- net.SplitHostPort of the remote address
  pub remote_host : Option Text

-- The loop over s.Environ(). SplitN by `=` has two parts exactly if there is a `=`.
abbrev pub assign : Option (Text × Text) → Dict Text → Dict Text
assign none env = env
assign (some (name, value)) env = insert name value env

unfoldable pub client_environment : List Text → Dict Text → Dict Text
unfolding cut insert
client_environment [] env = env
client_environment (v ∷ vs) env = client_environment vs (assign (cut b'=' v) env)

abbrev pub default_term : Request → Text
default_term r = if is_empty r.term then codes "xterm-256color" else r.term

unfoldable pub with_term : Request → Dict Text → Dict Text
unfolding lookup insert
with_term r env =
    if is_some (lookup (codes "TERM") env) then env else insert (codes "TERM") (default_term r) env

unfoldable pub setup_environment_variables : Request → InstanceUser → Dict Text
unfolding client_environment with_term
setup_environment_variables r iu = insert (codes "SSH_SESSION") r.session_id (
    insert (codes "SHELL") iu.shell (
      insert (codes "HOME") iu.dir
        (insert (codes "USER") iu.user (with_term r (client_environment r.environ [])))))

-- fmt's %q
pub record Quoting : Type 0 where
  pub quote : Text → Text

abbrev pub host_option : Quoting → Option Text → Text
host_option q none = []
host_option q (some host) = codes "-h " ++ (q.quote host ++ codes " ")

-- The command, and whether it runs as the instance user.
unfoldable pub build_command_string : Quoting → Text → Request → InstanceUser → Text × Bool
unfolding needs_shell_wrapping
build_command_string q shell r iu =
    if not (is_empty r.raw_command)
    then (
      if needs_shell_wrapping r.raw_command
          then iu.shell ++ (codes " -c " ++ q.quote r.raw_command)
          else r.raw_command,
      true,
    )
    else if text_eq shell (codes "su")
    then (codes "su - " ++ q.quote iu.user, false)
    else if text_eq shell (codes "sush")
    then (codes "sush " ++ q.quote iu.user, false)
    else if text_eq shell (codes "login")
    then (
      codes "login " ++ (host_option q r.remote_host ++ (codes "-f " ++ q.quote iu.user)),
      false,
    )
    else (iu.shell ++ codes " -l", true)

unfoldable pub one_line : Text → Text
unfolding replace_all
one_line lines = replace_all (codes "\n") (codes "\\n") lines
