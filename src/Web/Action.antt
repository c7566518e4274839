-- ===== src/Web/Action.antt =====
-- server/web-api.go, instanceActionHandler.
pub mod Scope
use ssh2incus.Base.{
  ℕ, Bool, not, ◌&&◌, ◌||◌, Option, none, some, List, [], ◌∷◌, ◌++◌, if◌then◌else◌,
}
use ssh2incus.Base.Int.{ℤ, negsuc}
use ssh2incus.Base.Result.{Result, ok, err}
use ssh2incus.Base.Text.{Text, codes, text_eq, split}
use ssh2incus.Base.Dict.{delete}

-- The parameter `name.project` of a path: the project is `default` where there is no dot.
abbrev pub name_project : List Text → Text × Text
name_project [] = ([], codes "default")
name_project (name ∷ []) = (name, codes "default")
name_project (name ∷ project ∷ parts) = (name, project)

unfoldable pub instance_param : Text → Text × Text
unfolding split
instance_param instance = name_project (split b'.' instance)

-- The status of a response with the message of an error or the action that was done.
pub record Response : Type 0 where
  pub status : ℕ
  pub message : Text

pub record InstanceActionRequest : Type 0 where
  pub action : Text
  pub force : Bool
  pub stateful : Bool
  pub delete : Bool

-- api.InstanceStatePut
pub record InstanceStatePut : Type 0 where
  pub action : Text
  pub timeout : ℤ
  pub force : Bool
  pub stateful : Bool

pub data Call : Type 0 where
  updated_state : (project name : Text) (put : InstanceStatePut) → Call
  deleted : (project name : Text) → Call

-- The answers of Incus: to a request, and to the wait for the end of its operation.
pub record Incus : Type 0 where
  pub connect : Result (Unit {0})
  pub update_instance_state : Text → Text → InstanceStatePut → Result (Unit {0})
  pub wait_update : Result (Unit {0})
  pub delete_instance : Text → Text → Result (Unit {0})
  pub wait_delete : Result (Unit {0})

unfoldable pub is_valid_action : Text → Bool
unfolding text_eq
is_valid_action a =
    text_eq a (codes "start") || text_eq a (codes "stop") || text_eq a (codes "restart")

abbrev pub state_put : InstanceActionRequest → InstanceStatePut
state_put req = record {
  action = req.action;
  timeout = negsuc 0;
  force = req.force;
  stateful = text_eq req.action (codes "stop") && req.stateful;
}

abbrev pub failed : Text → Response
failed m = record { status = 500; message = m }

abbrev pub refused : Text → Response
refused m = record { status = 400; message = m }

abbrev pub succeeded : InstanceActionRequest → Response
succeeded req = record { status = 200; message = req.action }

abbrev pub with_call : Call → Response × List Call → Response × List Call
with_call c (r, cs) = (r, c ∷ cs)

-- An error is the response; else the handler goes on.
abbrev pub unless_err : Result (Unit {0}) → Text → Response × List Call → Response × List Call
unless_err (ok u) what rest = rest
unless_err (err m) what rest = (failed (what ++ m), [])

unfoldable pub delete_stopped : Incus → Text → Text → InstanceActionRequest → Response × List Call
delete_stopped i project name req = with_call (deleted project name) (
    unless_err (i.delete_instance project name) (codes "Failed to delete instance: ")
      (unless_err i.wait_delete (codes "Failed to delete instance: ") (succeeded req, [])))

unfoldable pub after_action : Incus → Text → Text → InstanceActionRequest → Response × List Call
unfolding delete_stopped text_eq
after_action i project name req =
    if text_eq req.action (codes "stop") && req.delete
    then delete_stopped i project name req
    else (succeeded req, [])

unfoldable pub do_action : Incus → Text → Text → InstanceActionRequest → Response × List Call
unfolding after_action
do_action i project name req = with_call (updated_state project name (state_put req)) (
    unless_err (i.update_instance_state project name (state_put req))
      (codes "Failed to execute action: ")
      (unless_err i.wait_update (codes "Action failed: ") (after_action i project name req)))

-- `none` is a body that c.Bind refuses.
unfoldable pub instance_action : Incus → Text → Option InstanceActionRequest → Response × List Call
unfolding instance_param is_valid_action do_action
instance_action i instance none = (refused (codes "Invalid request body"), [])
instance_action i instance (some req) =
    if not (is_valid_action req.action)
    then (refused (codes "Invalid action. Must be start, stop, or restart"), [])
    else unless_err i.connect (codes "Failed to connect to Incus: ")
        (do_action i (instance_param instance).1 (instance_param instance).0 req)
