-- ===== src/Shell/Session/Order.antt =====
-- The whole session: it ends once, and what it creates and runs is allowed.
use ssh2incus.Base.{◌≡◌, ◌++◌, ◌⊎◌, Option, none, some, refl, List, [], ◌∷◌, All, arith}
use ssh2incus.Base.Result.{Result, ok, err}
use ssh2incus.LoginUser.{Login}
use ssh2incus.Shell.{Request}
use ssh2incus.Base.Text.{Text}
use ssh2incus.Shell.Trace.{
  Deferred, disconnect, ran, Trace, Event, created, executed, Fits-then, connected, Fits-bind_with,
  events, EndsOnce,
}
use ssh2incus.Shell.Session.{
  deferred_call, serve_session, serve_session_with, ShellWorld, ShellConfig, ensure_instance,
  find_user,
}
use ssh2incus.Shell.Session.Allowed.{IsCreation, IsExec, IsAllowedEvent, Fine, IsAnswer, Answered}
use ssh2incus.Shell.Session.Create.{ensure_instance-IsEnsured}
use ssh2incus.Shell.Session.Users.{find_user-Fine, find_user-Yields, run_session-Fine}

-- The calls that events defer, in order, and the events that run such calls, the last one first.
abbrev registered_first : Option Deferred → List Deferred → List Deferred
registered_first none ds = ds
registered_first (some d) ds = d ∷ ds

abbrev pub registered : List Event → List Deferred
registered [] = []
registered (e ∷ es) = registered_first (deferred_call e) (registered es)

abbrev pub backwards : List Deferred → List Event
backwards [] = []
backwards (d ∷ ds) = backwards ds ++ ran d ∷ []

module _ (w : ShellWorld) (config : ShellConfig) (r : Request) (lu : Login) where
  abbrev Allowed : Event → Type 0
  Allowed = IsAllowedEvent w config r lu

  serve_session_with-Fine :
      (a : Result (Unit {0})) → Fine w config r lu (serve_session_with w config r lu a)
  unfolding serve_session_with
  serve_session_with-Fine (err m) = ((tt, tt), refl)
  serve_session_with-Fine (ok u) = Fits-then Allowed _ _ refl tt (
      Fits-bind_with Allowed (Answered w config r lu) (ensure_instance w config r lu) _
        (ensure_instance-IsEnsured w config r lu).0 (ensure_instance-IsEnsured w config r lu).1
        (λ o h.
          Fits-bind_with Allowed (IsAnswer w config r lu) (find_user w config r lu o) _
            (find_user-Fine w config r lu o) (find_user-Yields w config r lu o h)
            (λ iu a. run_session-Fine w config r lu iu a)))

  serve_session-Fine : Fine w config r lu (serve_session w config r lu)
  unfolding serve_session
  serve_session-Fine = Fits-then Allowed (connected lu.remote) _ refl tt (serve_session_with-Fine _)

  abbrev pub IsCreationEvent : Event → Type 0
  IsCreationEvent (created p) = IsCreation w config r lu p
  IsCreationEvent e = Unit

  abbrev pub IsExecEvent : Event → Type 0
  IsExecEvent (executed e) = IsExec w config r lu e
  IsExecEvent e = Unit

  creations : (e : Event) → Allowed e → IsCreationEvent e
  creations (created p) h = h
  creations e h = ground arith

  execs : (e : Event) → Allowed e → IsExecEvent e
  execs (executed x) h = h
  execs e h = ground arith

  weaken :
      (P : Event → Type 0)
      → ((e : Event) → Allowed e → P e)
      → (es : List Event) → All Allowed es
      → All P es
  weaken P f [] h = tt
  weaken P f (e ∷ es) (h, hs) = (f e h, weaken P f es hs)

  -- The body of a handler and what follows it. A handler that connected disconnects, last of all.
  pub record IsEnded (es : List Event) : Type 0 where
    pub body : List Event
    pub rest : List Event
    pub parts : es ≡ body ++ rest
    pub ends : EndsOnce body
    pub unwound : rest ≡ backwards (registered body)
    pub disconnects :
        ((m : Text) × (w.connect lu.remote ≡ err m) × (rest ≡ []))
        ⊎ ((before : List Event) × (rest ≡ before ++ ran disconnect ∷ []))

  -- An instance is created only if creation is allowed by the configuration and asked for by the login,
  -- and its user was not found, and then under the login's name and project, with each setting from the
  -- login where it gives one, and else from the loaded create config, to which the login's profiles
  -- applied without an error, or zero; with that config's maps; and never only initialised.
  pub serve_session-created : All IsCreationEvent (events (serve_session w config r lu))
  serve_session-created = weaken IsCreationEvent creations _ serve_session-Fine.0

  -- Every command of the session itself runs in the login's instance, in the project in which the client
  -- stands, for a user that Incus answered. In a persistent session it lists, makes or attaches to the
  -- session of the configured multiplexer that has the program's name; otherwise it is the client's own
  -- command, as it is or under the user's shell with `-c` where that needs a shell, or without one the
  -- configured `su`, `sush` or `login` to the user, or the user's shell with `-l`. Only those three
  -- run as root, all else as the user. The commands of Incus's calls, which find the user and install
  -- packages, are not meant.
  pub serve_session-executed : All IsExecEvent (events (serve_session w config r lu))
  serve_session-executed = weaken IsExecEvent execs _ serve_session-Fine.0
