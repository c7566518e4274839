-- ===== src/Shell/Environment.antt =====
-- What the environment of a session holds.
use ssh2incus.Base.{◌≡◌, some, [], if◌then◌else◌, arith, Option-cases}
use ssh2incus.Base.Text.{Text, codes, text_eq, or_else}
use ssh2incus.Base.Text.Laws.{text_eq_iff}
use ssh2incus.Base.Dict.{Dict, lookup, lookup-insert}
use ssh2incus.LoginUser.Valid.{InstanceUser}
use ssh2incus.Shell.{
  Request, client_environment, with_term, default_term, setup_environment_variables,
}

module _ (r : Request) (iu : InstanceUser) (k : Text) where
  with_term-lookup :
      (env : Dict Text)
      → lookup k (with_term r env) ≡ (
          if text_eq (codes "TERM") k
          then some (or_else (lookup k env) (default_term r))
          else lookup k env)
  unfolding with_term
  with_term-lookup env = ground (
    arith,
    text_eq_iff (codes "TERM") k,
    lookup-insert (codes "TERM") k (default_term r) env,
    Option-cases (lookup (codes "TERM") env),
  )

  -- The user, home, shell and session id are the server's, whatever the client sends; TERM is the
  -- client's, or else the terminal's, or else xterm-256color; all else is what the client sent.
  pub lookup-setup_environment_variables : lookup k (setup_environment_variables r iu) ≡ (
      if text_eq (codes "SSH_SESSION") k
      then some r.session_id
      else if text_eq (codes "SHELL") k
      then some iu.shell
      else if text_eq (codes "HOME") k
      then some iu.dir
      else if text_eq (codes "USER") k
      then some iu.user
      else if text_eq (codes "TERM") k
      then some (or_else (lookup k (client_environment r.environ [])) (default_term r))
      else lookup k (client_environment r.environ []))
  unfolding setup_environment_variables
  lookup-setup_environment_variables = rw (
    lookup-insert,
    lookup-insert,
    lookup-insert,
    lookup-insert,
    with_term-lookup (client_environment r.environ []),
  )
