-- ===== src/Shell/Remove/Safe.antt =====
-- What removeHandler stops and deletes.
use ssh2incus.Base.{
  ◌≡◌, ◌≢◌, refl, ◌⊎◌, inl, inr, Bool, true, false, not, Option, none, some, List, [], ◌∷◌, All,
  arith,
}
use ssh2incus.Base.Int.{pos}
use ssh2incus.Base.Result.{Result, ok, err}
use ssh2incus.Base.Text.{Text, codes, text_eq}
use ssh2incus.Base.Text.Laws.{text_eq_iff}
use ssh2incus.LoginUser.{Login}
use ssh2incus.Shell.Trace.{
  Trace, emit, pure, exit, Event, connected, printed, read_reply, stopped, deleted, events,
  EndsOnce, IsOrdered-EndsOnce, Fits, Fits-bind, Fits-bind_with, Fits-then, Fits-if, Yields,
  Yields-bind, Yields-if,
}
use ssh2incus.Shell.Remove.{
  question, RemoveWorld, Instance, is_yes, check_result, question, confirmed, confirm, gone,
  wait_until_gone, stop, delete_instance, remove_confirmed, existing, check_connected,
  remove_target, remove_handler,
}

module _ (w : RemoveWorld) (lu ru : Login) where
  -- The session's host user is root, the instance exists, and the client said yes or forced it.
  pub record IsConfirmed : Type 0 where
    pub root : lu.user ≡ codes "root"
    pub inst : Instance
    pub exists : w.get_cached_instance ru.project ru.instance_name ≡ ok (some inst)
    pub agreed :
        (lu.force_remove ≡ true) ⊎ ((reply : Text) × (w.read ≡ ok reply) × (is_yes reply ≡ true))

  abbrev pub IsTarget : Text → Text → Type 0
  IsTarget project name = (project ≡ ru.project) × (name ≡ ru.instance_name)

  -- What is stopped or deleted is the named instance. A running ephemeral instance is only stopped.
  abbrev pub IsRemoval : Event → Type 0
  IsRemoval (stopped project name) =
      IsTarget project name × ((c : IsConfirmed) × (c.inst.status ≡ codes "Running"))
  IsRemoval (deleted project name) =
      IsTarget project name
      × ((c : IsConfirmed) × ((c.inst.status ≢ codes "Running") ⊎ (c.inst.ephemeral ≡ false)))
  IsRemoval (connected remote) = remote ≡ lu.remote
  IsRemoval e = Unit

  abbrev Fine {ℓ} : {A : Type ℓ} → Trace A → Type 0
  Fine t = Fits IsRemoval t

  check_result-Fine : (a : Result (Unit {0})) → Fine (check_result w lu ru a)
  check_result-Fine (err m) = ((tt, tt), refl)
  check_result-Fine (ok u) = (tt, tt)

  gone-Fine : (rest : Trace ⊥) (tick : Result Bool) → Fine rest → Fine (gone w lu ru rest tick)
  gone-Fine rest (ok false) h = ((tt, tt), refl)
  gone-Fine rest (ok true) h = h
  gone-Fine rest (err m) h = h

  wait-Fine : (ticks : List (Result Bool)) → Fine (wait_until_gone w lu ru ticks)
  unfolding wait_until_gone
  wait-Fine [] = ((tt, tt), refl)
  wait-Fine (tick ∷ ticks) =
      Fits-then IsRemoval {A = ⊥} _ _ refl tt
        (gone-Fine (wait_until_gone w lu ru ticks) tick (wait-Fine ticks))

  module _ (c : IsConfirmed) where
    stop-Fine : c.inst.status ≡ codes "Running" → Fine (stop w lu ru)
    unfolding stop
    stop-Fine running =
        Fits-then IsRemoval _ _ refl ((refl, refl), (c, running))
          (Fits-bind IsRemoval (check_result w lu ru w.stop_instance) _
            (check_result-Fine w.stop_instance) (λ _. check_result-Fine w.stop_wait))

    delete-Fine :
        (c.inst.status ≢ codes "Running") ⊎ (c.inst.ephemeral ≡ false)
        → Fine (delete_instance w lu ru)
    unfolding delete_instance
    delete-Fine h =
        Fits-then IsRemoval {A = ⊥} _ _ refl ((refl, refl), (c, h))
          (Fits-bind IsRemoval (check_result w lu ru w.delete_instance) _
            (check_result-Fine w.delete_instance)
            (λ _.
              Fits-bind IsRemoval (check_result w lu ru w.delete_wait) _
                (check_result-Fine w.delete_wait) (λ _. ((tt, tt), refl))))

    remove_confirmed-Fine : Fine (remove_confirmed w lu ru c.inst)
    unfolding remove_confirmed
    remove_confirmed-Fine =
        Fits-if IsRemoval (text_eq c.inst.status (codes "Running")) _ _
          (λ running.
            Fits-bind IsRemoval (stop w lu ru) _ (stop-Fine ((text_eq_iff _ _).0 running)) (λ _.
              Fits-if IsRemoval c.inst.ephemeral _ _ (λ _. wait-Fine w.ticks)
                (λ kept. delete-Fine (inr kept))))
          (λ other.
            delete-Fine
              (inl (λ e. let running = (text_eq_iff c.inst.status (codes "Running")).1 e in cc)))

  abbrev Agreed : Unit {0} → Type 0
  Agreed u =
      (lu.force_remove ≡ true) ⊎ ((reply : Text) × (w.read ≡ ok reply) × (is_yes reply ≡ true))

  confirmed-Fine : (a : Result Text) → Fine (confirmed w lu ru a)
  unfolding confirmed
  confirmed-Fine (err m) = ((tt, tt), refl)
  confirmed-Fine (ok reply) =
      Fits-if IsRemoval (is_yes reply) (pure tt) (exit (pos 0)) (λ _. (tt, tt))
        (λ _. ((tt, tt), refl))

  confirmed-Yields : (a : Result Text) → w.read ≡ a → Yields IsRemoval Agreed (confirmed w lu ru a)
  unfolding confirmed
  confirmed-Yields (err m) e = tt
  confirmed-Yields (ok reply) e =
      Yields-if IsRemoval Agreed (is_yes reply) (pure tt) (exit (pos 0))
        (λ yes. inr (reply, e, yes)) (λ _. tt)

  confirm-Fine : Fine (confirm w lu ru)
  unfolding confirm
  confirm-Fine =
      Fits-if IsRemoval lu.force_remove (pure tt) _ (λ _. (tt, tt))
        (λ _.
          Fits-then IsRemoval _ _ refl tt (Fits-then IsRemoval _ _ refl tt (confirmed-Fine w.read)))

  confirm-Yields : Yields IsRemoval Agreed (confirm w lu ru)
  unfolding confirm
  confirm-Yields =
      Yields-if IsRemoval Agreed lu.force_remove (pure tt) _ (λ force. inl force)
        (λ _. Yields-bind IsRemoval Agreed (emit (printed (question w lu ru))) _ (λ _.
          Yields-bind IsRemoval Agreed (emit read_reply) _ (λ _. confirmed-Yields w.read refl)))

  abbrev Found : Instance → Type 0
  Found inst = w.get_cached_instance ru.project ru.instance_name ≡ ok (some inst)

  existing-Fine : (a : Result (Option Instance)) → Fine (existing w lu ru a)
  existing-Fine (err m) = ((tt, tt), refl)
  existing-Fine (ok none) = ((tt, tt), refl)
  existing-Fine (ok (some inst)) = (tt, tt)

  existing-Yields :
      (a : Result (Option Instance))
      → w.get_cached_instance ru.project ru.instance_name ≡ a
      → Yields IsRemoval Found (existing w lu ru a)
  existing-Yields (err m) e = tt
  existing-Yields (ok none) e = tt
  existing-Yields (ok (some inst)) e = e

  check_connected-Fine : (a : Result (Unit {0})) → Fine (check_connected w lu ru a)
  check_connected-Fine (err m) = ((tt, tt), refl)
  check_connected-Fine (ok u) = (tt, tt)

  target-Fine : Fine (remove_target w lu ru)
  unfolding remove_target
  target-Fine =
      Fits-if IsRemoval (not (text_eq lu.user (codes "root"))) (exit (pos 1)) _
        (λ _. ((tt, tt), refl))
        (λ root. Fits-then IsRemoval {A = ⊥} _ _ refl refl (
          Fits-bind IsRemoval (check_connected w lu ru (w.connect lu.remote)) _
            (check_connected-Fine _)
            (λ _. Fits-then IsRemoval {A = ⊥} _ _ refl tt (
              Fits-bind_with IsRemoval Found (existing w lu ru _) _ (existing-Fine _)
                (existing-Yields _ refl)
                (λ inst found.
                  Fits-bind_with IsRemoval Agreed (confirm w lu ru) _ confirm-Fine confirm-Yields
                    (λ _ agreed. remove_confirmed-Fine (record {
                      root = (text_eq_iff lu.user (codes "root")).0 (ground arith);
                      inst = inst;
                      exists = found;
                      agreed = agreed;
                    })))))))

  -- Whatever the answers are: the handler connects to the remote of the session, and to no other; it
  -- stops or deletes only the named instance, which exists, and only for the host user root after a yes
  -- or with force; it stops only an instance that was running, and deletes only one that was not running
  -- or is not ephemeral; and it ends exactly once.
  pub remove_handler-IsRemoval :
      All IsRemoval (events (remove_handler w lu (some ru)))
      × EndsOnce (events (remove_handler w lu (some ru)))
  unfolding remove_handler
  remove_handler-IsRemoval =
      (target-Fine.0, IsOrdered-EndsOnce (remove_target w lu ru) target-Fine.1)
