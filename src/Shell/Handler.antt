-- ===== src/Shell/Handler.antt =====
-- server/shell.go, shellHandler as a whole: the tests at its top, and the handler that each leads to.
-- The Incus shell, a loop of bash over a PTY of the host, is one event.
use ssh2incus.Base.{◌≡◌, refl, ◌↔◌, Bool, true, false, not, Option, none, some, [], ◌∷◌, arith}
use ssh2incus.Base.Int.{pos}
use ssh2incus.Base.Text.{Text, codes, is_empty}
use ssh2incus.Base.Text.Laws.{text_eq_iff}
use ssh2incus.LoginUser.{
  Login, LoginUser, LoginPointer, nil, pointer, login_of, login_user, is_command,
}
use ssh2incus.Shell.{
  Dispatch, dispatch, invalid_login, incus_shell, remove_instance, explain_login, not_allowed,
  open_session, Request,
}
use ssh2incus.Shell.Trace.{Trace, done, ◌>>◌, emit, exit, printed, opened_incus_shell}
use ssh2incus.Shell.Session.{ShellWorld, ShellConfig, session_events}
use ssh2incus.Shell.Remove.{RemoveWorld, remove_handler}
use ssh2incus.Shell.Explain.{explain_handler}

abbrev pub target : LoginPointer → Option Login
target nil = none
target (pointer u) = some (login_of u)

unfoldable pub handle :
    ShellWorld
    → RemoveWorld
    → ShellConfig
    → Request
    → Login
    → LoginPointer
    → LoginPointer
    → Dispatch
    → Trace ⊥
unfolding explain_handler remove_handler session_events
handle w v config r lu explain remove invalid_login =
    emit (printed (codes "invalid login\r\n")) >> exit (pos 1)
handle w v config r lu explain remove incus_shell = emit opened_incus_shell >> exit (pos 0)
handle w v config r lu explain remove remove_instance = remove_handler v lu (target remove)
handle w v config r lu explain remove explain_login = explain_handler (target explain)
handle w v config r lu explain remove not_allowed =
    emit (printed (codes "not allowed\r\n")) >> exit (pos 1)
handle w v config r lu explain remove open_session = done (session_events w config r lu)

unfoldable pub shell_handler :
    ShellWorld → RemoveWorld → ShellConfig → Request → Bool → LoginUser → Trace ⊥
unfolding handle dispatch
shell_handler w v config r valid (login_user lu explain remove) =
    handle w v config r lu explain remove (dispatch valid lu)

empty_iff : (s : Text) → (not (is_empty s) ≡ false) ↔ (s ≡ [])
empty_iff [] = ((λ _. refl), λ _. refl)
empty_iff (c ∷ s) = ((λ h. cc), λ h. cc)

-- A session is opened exactly for a valid login that is no command. The Incus shell is opened and an
-- instance is removed exactly for the host user root with that command. Any valid login with the command
-- `explain` is explained. What is left is refused.
pub dispatch_iff :
    (valid : Bool) (lu : Login)
    → ((dispatch valid lu ≡ open_session) ↔ ((valid ≡ true) × (lu.command ≡ [])))
      × ((dispatch valid lu ≡ incus_shell)
          ↔ ((valid ≡ true) × (lu.user ≡ codes "root") × (lu.command ≡ codes "shell")))
      × ((dispatch valid lu ≡ remove_instance)
          ↔ ((valid ≡ true) × (lu.user ≡ codes "root") × (lu.command ≡ codes "remove")))
      × ((dispatch valid lu ≡ explain_login) ↔ ((valid ≡ true) × (lu.command ≡ codes "explain")))
unfolding dispatch is_command
dispatch_iff valid lu = ground (
  arith,
  empty_iff lu.command,
  text_eq_iff lu.user (codes "root"),
  text_eq_iff lu.command (codes "explain"),
  text_eq_iff lu.command (codes "shell"),
  text_eq_iff lu.command (codes "remove"),
)
