-- ===== src/Incus/Exec.antt =====
-- pkg/incus/exec.go: the request that runs a command in an instance, and its outcome. The control
-- channel of the websocket is left out; shlex.Split is a parameter.
pub mod Width
use ssh2incus.Base.{ℕ, Bool, true, Option, none, some, List, [], ◌++◌, if◌then◌else◌, ◌-◌, ◌%◌, ◌^◌}
use ssh2incus.Base.Int.{ℤ, pos, negsuc}
use ssh2incus.Base.Text.{Text, codes, is_empty}
use ssh2incus.Base.Dict.{Dict}

pub record InstanceExec : Type 0 where
  pub instance : Text
  pub cmd : Text
  pub env : Dict Text
  pub is_pty : Bool
  pub width : ℤ
  pub height : ℤ
  pub user : ℤ
  pub group : ℤ
  pub cwd : Text

-- api.InstanceExecPost
pub record InstanceExecPost : Type 0 where
  pub command : List Text
  pub wait_for_ws : Bool
  pub interactive : Bool
  pub environment : Dict Text
  pub width : ℤ
  pub height : ℤ
  pub user : ℕ
  pub group : ℕ
  pub cwd : Text

-- uint32(n)
unfoldable pub uint32 : ℤ → ℕ
uint32 (pos n) = n % 2 ^ 32
uint32 (negsuc n) = 2 ^ 32 - 1 - n % 2 ^ 32

-- The words before an error of shlex.Split are used; the error is not looked at.
unfoldable pub build_exec_request : (Text → List Text) → InstanceExec → InstanceExecPost
unfolding uint32
build_exec_request shlex_split e = record {
  command = shlex_split e.cmd;
  wait_for_ws = true;
  interactive = e.is_pty;
  environment = e.env;
  width = e.width;
  height = e.height;
  user = uint32 e.user;
  group = uint32 e.group;
  cwd = e.cwd;
}

-- What a command that ran to its end left: its exit code, and what it wrote.
pub record Finished : Type 0 where
  pub ret : ℤ
  pub stdout : Text
  pub stderr : Text

-- The answers to the request and to the wait for its operation.
pub data Answer : Type 0 where
  refused : Text → Answer
  broken : Text → Answer
  finished : Finished → Answer

-- The results of Exec, with what was written to Stdout.
pub record Outcome : Type 0 where
  pub ret : ℤ
  pub error : Option Text
  pub stdout : Text

unfoldable pub outcome : Answer → Outcome
outcome (refused m) = record {
  ret = negsuc 0;
  error = some (codes "exec instance: " ++ m);
  stdout = [];
}
outcome (broken m) = record {
  ret = negsuc 0;
  error = some (codes "operation wait: " ++ m);
  stdout = [];
}
outcome (finished f) = record {
  ret = f.ret;
  error = if is_empty f.stderr then none else some (codes "stderr: " ++ f.stderr);
  stdout = f.stdout;
}

unfoldable pub exec :
    (Text → List Text) → (Text → InstanceExecPost → Answer) → InstanceExec → Outcome
unfolding build_exec_request outcome
exec shlex_split exec_instance e =
    outcome (exec_instance e.instance (build_exec_request shlex_split e))
