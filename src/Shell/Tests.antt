-- ===== src/Shell/Tests.antt =====
-- Sessions, commands and removals that the theorems on the shell apply to.
use ssh2incus.Base.{◌≡◌, refl, true, false, none, some, [], ◌∷◌, ◌++◌, All}
use ssh2incus.Base.Int.{pos}
use ssh2incus.Base.Result.{ok, err}
use ssh2incus.Base.Text.{codes, text_eq, cut_prefix, contains}
use ssh2incus.Base.Text.Space.{trim_space, to_lower}
use ssh2incus.LoginUser.{Login, zero_login}
use ssh2incus.LoginUser.Tests.{bob, bob_login}
use ssh2incus.CreateConfig.Tests.{test_config, test_store}
use ssh2incus.Shell.{Request, Quoting}
use ssh2incus.Shell.Wrapping.{needs_shell_wrapping}
use ssh2incus.Shell.Unwrapped.{IsShellFree, needs_shell_wrapping-false}
use ssh2incus.Shell.Trace.{events, EndsOnce}
use ssh2incus.Shell.Session.{ShellConfig, ShellWorld, serve_session}
use ssh2incus.Shell.Session.Order.{
  IsCreationEvent, IsExecEvent, serve_session-created, serve_session-executed,
}
use ssh2incus.Shell.Remove.{RemoveWorld, remove_handler, is_yes}
use ssh2incus.Shell.Remove.Safe.{IsRemoval, remove_handler-IsRemoval}

abbrev quoting : Quoting
quoting = record { quote = λ s. codes "\"" ++ (s ++ codes "\"") }

abbrev request : Request
request = record {
  environ = codes "USER=mallory" ∷ codes "LANG=C" ∷ [];
  raw_command = [];
  term = codes "vt100";
  is_pty = true;
  session_id = codes "abcd";
  agent_requested = true;
  remote_host = none;
}

abbrev shell_config : ShellConfig
shell_config = record {
  allow_create = true;
  shell = codes "su";
  term_mux = codes "tmux";
  app_name = codes "ssh2incus";
  welcome = true;
}

-- The user does not exist at first, and does once the instance is created.
abbrev shell_world : ShellWorld
shell_world = record {
  quoting = quoting;
  connect = λ remote. ok tt;
  get_instance_user = err (codes "not found");
  create_config = some test_config;
  store = test_store;
  create_instance = λ p. ok tt;
  poll = λ i. ok (some bob);
  get_cached_instance_user = ok (some bob);
  agent_listener = ok (codes "/tmp/agent");
  add_socket = ok (codes "/tmp/agent.sock");
  command_exists = λ name. true;
  install_packages = λ name. ok tt;
  list_lines = [];
  welcome_text = λ iu. [];
  exit_code = pos 0;
  client_project = codes "default";
}

abbrev create_login : Login
create_login = record bob_login { create_instance = true }

serve_session-created_example :
    All
      (IsCreationEvent shell_world shell_config request create_login)
      (events (serve_session shell_world shell_config request create_login))
serve_session-created_example = serve_session-created shell_world shell_config request create_login

serve_session-executed_example :
    All
      (IsExecEvent shell_world shell_config request bob_login)
      (events (serve_session shell_world shell_config request bob_login))
serve_session-executed_example = serve_session-executed shell_world shell_config request bob_login

abbrev remove_world : RemoveWorld
remove_world = record {
  connect = λ remote. ok tt;
  get_cached_instance = λ p n. ok (some (record { status = codes "Running"; ephemeral = false }));
  read = ok (codes " Yes\r\n");
  stop_instance = ok tt;
  stop_wait = ok tt;
  ticks = [];
  delete_instance = ok tt;
  delete_wait = ok tt;
}

yes : is_yes (codes " Yes\r\n") ≡ true
unfolding is_yes trim_space to_lower text_eq
yes = refl

abbrev root_login : Login
root_login = record zero_login { user = codes "root"; command = codes "remove" }

remove_handler-IsRemoval_example :
    All
      (IsRemoval remove_world root_login bob_login)
      (events (remove_handler remove_world root_login (some bob_login)))
    × EndsOnce (events (remove_handler remove_world root_login (some bob_login)))
remove_handler-IsRemoval_example = remove_handler-IsRemoval remove_world root_login bob_login

plain_command : needs_shell_wrapping (codes " uptime ") ≡ false
unfolding needs_shell_wrapping trim_space cut_prefix contains
plain_command = refl

needs_shell_wrapping-false_example : IsShellFree (trim_space (codes " uptime "))
needs_shell_wrapping-false_example = needs_shell_wrapping-false (codes " uptime ") plain_command
