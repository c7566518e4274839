-- ===== src/Shell/Session/Users.antt =====
-- The steps of a session that find its user and run its commands do what is allowed.
use ssh2incus.Base.{
  ◌≡◌, ◌≢◌, ap, ◌++◌, true, Bool-cases, refl, inl, inr, Bool, false, not, Option, none, some, [],
  ◌∷◌, arith,
}
use ssh2incus.Base.Result.{Result, ok, err}
use ssh2incus.Base.Text.{Text, codes, is_empty, text_eq}
use ssh2incus.Base.Text.Laws.{text_eq_iff}
use ssh2incus.Base.Dict.{Dict}
use ssh2incus.LoginUser.{Login}
use ssh2incus.LoginUser.Valid.{InstanceUser}
use ssh2incus.Shell.{Request, host_option, build_command_string, setup_environment_variables}
use ssh2incus.Shell.Mux.{TermMux, session_exists, mux_name, new_command, list, attach, new_term_mux}
use ssh2incus.Shell.Wrapping.{needs_shell_wrapping}
use mathlib.Core.List.{append-nil, append_assoc}
use ssh2incus.Shell.Trace.{
  Event, executed, emit, pure, Fits-bind, Fits-if, Fits-emit, Fits-then, printed, asked_user,
  Yields, Yields-bind, Fits-bind_with, Yields-if,
}
use ssh2incus.Shell.Session.{
  ShellWorld, ShellConfig, cached_user, find_user, forward_agent, agent_env, setup_agent,
  start_session, check_term_mux, attach_mux, greet, as_user, after_install, exec_request,
  run_session, session_command,
}
use ssh2incus.Shell.Session.Allowed.{
  IsMuxCommand, IsSwitch, IsExec, IsAllowedEvent, Fine, IsAnswer, Answered, IsCommand,
}

module _ (w : ShellWorld) (config : ShellConfig) (r : Request) (lu : Login) where
  abbrev Allowed : Event → Type 0
  Allowed = IsAllowedEvent w config r lu

  cached_user-Fine :
      (a : Result (Option InstanceUser)) → Fine w config r lu (cached_user w config r lu a)
  cached_user-Fine (err m) = ground arith
  cached_user-Fine (ok none) = ground arith
  cached_user-Fine (ok (some iu)) = (tt, tt)

  agent_env-Fine :
      (env : Dict Text) (a : Result Text) → Fine w config r lu (agent_env w config r lu env a)
  unfolding agent_env
  agent_env-Fine env (err m) = ground arith
  agent_env-Fine env (ok socket) = ground arith

  forward_agent-Fine :
      (env : Dict Text) (a : Result Text) → Fine w config r lu (forward_agent w config r lu env a)
  unfolding forward_agent
  forward_agent-Fine env (err m) = ground arith
  forward_agent-Fine env (ok address) =
      Fits-then Allowed _ _ refl tt
        (Fits-then Allowed _ _ refl tt (agent_env-Fine env w.add_socket))

  setup_agent-Fine : (env : Dict Text) → Fine w config r lu (setup_agent w config r lu env)
  unfolding setup_agent
  setup_agent-Fine env =
      Fits-if Allowed r.agent_requested (forward_agent w config r lu env w.agent_listener)
        (pure env) (λ _. forward_agent-Fine env w.agent_listener) (λ _. (tt, tt))

  greet-Fine : (iu : InstanceUser) → Fine w config r lu (greet w config r lu iu)
  unfolding greet
  greet-Fine iu =
      Fits-if Allowed _ (emit (printed (w.welcome_text iu))) (pure tt) (λ _. ground arith)
        (λ _. (tt, tt))

  cached_user-Yields :
      (a : Result (Option InstanceUser))
      → w.get_cached_instance_user ≡ a
      → Yields Allowed (IsAnswer w config r lu) (cached_user w config r lu a)
  cached_user-Yields (err m) e = tt
  cached_user-Yields (ok none) e = tt
  cached_user-Yields (ok (some iu)) e = inr (rw e)

  pub find_user-Yields :
      (o : Option InstanceUser)
      → (Answered w config r lu) o
      → Yields Allowed (IsAnswer w config r lu) (find_user w config r lu o)
  unfolding find_user
  find_user-Yields (some iu) h = h
  find_user-Yields none h =
      Yields-bind Allowed (IsAnswer w config r lu) (emit asked_user) _
        (λ _. cached_user-Yields w.get_cached_instance_user refl)

  pub find_user-Fine : (o : Option InstanceUser) → Fine w config r lu (find_user w config r lu o)
  unfolding find_user
  find_user-Fine (some iu) = (tt, tt)
  find_user-Fine none = Fits-then Allowed _ _ refl tt (cached_user-Fine w.get_cached_instance_user)

  module _ (iu : InstanceUser) (answer : (IsAnswer w config r lu) iu) where
    as_user-IsExec :
        (cmd : Text) (env : Dict Text) (cwd : Text)
        → lu.persistent ≡ true
        → (IsMuxCommand w config r lu) cmd
        → (IsExec w config r lu) (as_user w config r lu iu cmd env cwd)
    unfolding as_user
    as_user-IsExec cmd env cwd p m = record {
      user = iu;
      answer = answer;
      instance_name = refl;
      project = refl;
      command = (true, inl (p, m, refl), (refl, refl));
    }

    -- A multiplexer whose commands are those of the configured one.
    abbrev IsMux : TermMux → Type 0
    IsMux mux =
        (IsMuxCommand w config r lu) (list mux)
        × (IsMuxCommand w config r lu) (new_command mux)
        × (IsMuxCommand w config r lu) (attach mux)

    abbrev IsMuxResult : Result TermMux → Type 0
    IsMuxResult (err m) = Unit
    IsMuxResult (ok mux) = IsMux mux

    new_term_mux-IsMux : IsMuxResult (new_term_mux config.term_mux config.app_name false)
    unfolding new_term_mux list new_command attach mux_name
    new_term_mux-IsMux = elim (Bool-cases (text_eq config.term_mux (codes "tmux"))) [
      | inl tmux ↦
          let e = (text_eq_iff config.term_mux (codes "tmux")).0 tmux in
          rw (tmux, e)
            (inl (refl, inl refl), inl (refl, inr (inl refl)), inl (refl, inr (inr refl)))
      | inr other ↦ elim (Bool-cases (text_eq config.term_mux (codes "screen"))) [
        | inl screen ↦
            let e = (text_eq_iff config.term_mux (codes "screen")).0 screen in
            rw (other, screen) rw e
              (
                inr (refl, inl refl),
                inr (
                  refl,
                  inr (inl (ap (λ t. codes "screen -dmS " ++ t) (append-nil config.app_name))),
                ),
                inr (refl, inr (inr refl)),
              )
        | inr unknown ↦ rw (other, unknown) tt
      ]
    ]

    start_session-Fine :
        (mux : TermMux) (env : Dict Text)
        → lu.persistent ≡ true
        → IsMux mux
        → Fine w config r lu (start_session w config r lu mux iu env)
    unfolding start_session
    start_session-Fine mux env p (listed, made, attached) =
        Fits-then Allowed _ _ refl (as_user-IsExec _ _ _ p listed) (
          Fits-if Allowed (session_exists mux w.list_lines) _ _ (λ _. (tt, tt))
            (λ _.
              Fits-emit Allowed (executed (as_user w config r lu iu (new_command mux) env iu.dir))
                refl (as_user-IsExec (new_command mux) env iu.dir p made)))

    after_install-Fine :
        (mux : TermMux) (env : Dict Text) (a : Result (Unit {0}))
        → lu.persistent ≡ true
        → IsMux mux
        → Fine w config r lu (after_install w config r lu mux iu env a)
    after_install-Fine mux env (err m) p h = ground arith
    after_install-Fine mux env (ok u) p h = start_session-Fine mux env p h

    check_term_mux-Fine :
        (mux : TermMux) (env : Dict Text)
        → lu.persistent ≡ true
        → IsMux mux
        → Fine w config r lu (check_term_mux w config r lu mux iu env)
    unfolding check_term_mux
    check_term_mux-Fine mux env p h =
        Fits-if Allowed (w.command_exists (mux_name mux)) _ _ (λ _. start_session-Fine mux env p h)
          (λ _.
            Fits-then Allowed _ _ refl tt
              (Fits-then Allowed _ _ refl tt (after_install-Fine mux env _ p h)))

    attach_mux-Fine :
        (env : Dict Text) (a : Result TermMux)
        → lu.persistent ≡ true
        → IsMuxResult a
        → Fine w config r lu (attach_mux w config r lu iu env a)
    unfolding attach_mux
    attach_mux-Fine env (err m) p h = ground arith
    attach_mux-Fine env (ok mux) p h =
        Fits-bind Allowed (check_term_mux w config r lu mux iu env) _
          (check_term_mux-Fine mux env p h) (λ _. (tt, tt))

    attach_mux-Yields :
        (env : Dict Text) (a : Result TermMux)
        → lu.persistent ≡ true
        → IsMuxResult a
        → Yields Allowed (IsCommand w config r lu iu) (attach_mux w config r lu iu env a)
    unfolding attach_mux
    attach_mux-Yields env (err m) p h = tt
    attach_mux-Yields env (ok mux) p h =
        Yields-bind Allowed (IsCommand w config r lu iu) (check_term_mux w config r lu mux iu env) _
          (λ _. inl (p, h.2, refl))

    empty_command : (s : Text) → not (is_empty s) ≡ false → s ≡ []
    empty_command [] h = refl
    empty_command (c ∷ s) h = cc

    given-IsCommand :
        lu.persistent ≡ false
        → not (is_empty r.raw_command) ≡ true
        → (IsCommand w config r lu iu) (build_command_string w.quoting config.shell r iu)
    unfolding build_command_string
    given-IsCommand p h =
        let some_command : r.raw_command ≢ [] = λ e. let k = ap is_empty e in ground arith in
        elim (Bool-cases (needs_shell_wrapping r.raw_command)) [
          | inl wrapped ↦ rw (h, wrapped) (inr (p, inl (some_command, inr (refl, refl), refl)))
          | inr plain ↦ rw (h, plain) (inr (p, inl (some_command, inl (refl, refl), refl)))
        ]

    not_text : (s t : Text) → text_eq s t ≡ false → s ≢ t
    not_text s t h e = let k = (text_eq_iff s t).1 e in cc

    login-IsSwitch :
        (o : Option Text)
        → r.remote_host ≡ o
        → config.shell ≡ codes "login"
        → (IsSwitch w config r lu iu) (
            codes "login " ++ (host_option w.quoting o ++ (codes "-f " ++ w.quoting.quote iu.user)))
    login-IsSwitch none e s = inr (inr (s, inl (e, refl)))
    login-IsSwitch (some host) e s = inr (
        inr (
          s,
          inr (
            host,
            e,
            ap (λ t. codes "login -h " ++ t)
                (append_assoc (w.quoting.quote host) (codes " ")
                  (codes "-f " ++ w.quoting.quote iu.user)),
          ),
        ))

    switched-IsCommand :
        lu.persistent ≡ false
        → not (is_empty r.raw_command) ≡ false
        → (IsCommand w config r lu iu) (build_command_string w.quoting config.shell r iu)
    unfolding build_command_string
    switched-IsCommand p h =
        let none_given = empty_command r.raw_command h in
        let named = λ (t : Text). (text_eq_iff config.shell t).0 in
        elim (Bool-cases (text_eq config.shell (codes "su"))) [
          | inl su ↦
              rw (h, su) (inr (p, inr (none_given, inl (inl (named (codes "su") su, refl), refl))))
          | inr a ↦ elim (Bool-cases (text_eq config.shell (codes "sush"))) [
            | inl sush ↦
                rw (h, a, sush)
                  (inr
                    (p, inr (none_given, inl (inr (inl (named (codes "sush") sush, refl)), refl))))
            | inr b ↦ elim (Bool-cases (text_eq config.shell (codes "login"))) [
              | inl login ↦
                  rw (h, a, b, login)
                    (inr (
                      p,
                      inr (
                        none_given,
                        inl (login-IsSwitch r.remote_host refl (named (codes "login") login), refl),
                      ),
                    ))
              | inr c ↦
                  rw (h, a, b, c)
                    (inr (
                      p,
                      inr (
                        none_given,
                        inr ((not_text _ _ a, not_text _ _ b, not_text _ _ c, refl), refl),
                      ),
                    ))
            ]
          ]
        ]

    build-IsCommand :
        lu.persistent ≡ false
        → (IsCommand w config r lu iu) (build_command_string w.quoting config.shell r iu)
    build-IsCommand p = elim (Bool-cases (not (is_empty r.raw_command))) [
      | inl given ↦ given-IsCommand p given
      | inr empty ↦ switched-IsCommand p empty
    ]

    exec_request-IsExec :
        (env : Dict Text) (c : Text × Bool)
        → (IsCommand w config r lu iu) c
        → (IsExec w config r lu) (exec_request w config r lu iu env c.0 c.1)
    unfolding exec_request
    exec_request-IsExec env (cmd, true) c = record {
      user = iu;
      answer = answer;
      instance_name = refl;
      project = refl;
      command = (true, c, (refl, refl));
    }
    exec_request-IsExec env (cmd, false) c = record {
      user = iu;
      answer = answer;
      instance_name = refl;
      project = refl;
      command = (false, c, (refl, refl));
    }

    session_command-Fine :
        (env : Dict Text) → Fine w config r lu (session_command w config r lu iu env)
    unfolding session_command
    session_command-Fine env =
        Fits-if Allowed lu.persistent _ (pure _) (λ p. attach_mux-Fine env _ p new_term_mux-IsMux)
          (λ _. (tt, tt))

    session_command-Yields :
        (env : Dict Text)
        → Yields Allowed (IsCommand w config r lu iu) (session_command w config r lu iu env)
    unfolding session_command
    session_command-Yields env =
        Yields-if Allowed (IsCommand w config r lu iu) lu.persistent _ (pure _)
          (λ p. attach_mux-Yields env _ p new_term_mux-IsMux) build-IsCommand

    pub run_session-Fine : Fine w config r lu (run_session w config r lu iu)
    unfolding run_session
    run_session-Fine =
        Fits-bind Allowed (setup_agent w config r lu (setup_environment_variables r iu)) _
          (setup_agent-Fine _)
          (λ env.
            Fits-bind_with Allowed (IsCommand w config r lu iu)
              (session_command w config r lu iu env) _ (session_command-Fine env)
              (session_command-Yields env)
              (λ c h. Fits-bind Allowed (greet w config r lu iu) _ (greet-Fine iu) (λ _. (
                (tt, (tt, (exec_request-IsExec env c h, (tt, tt)))),
                (refl, (refl, (refl, refl))),
              ))))
