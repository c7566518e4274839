-- ===== src/Shell/Remove.antt =====
-- server/shell.go, removeHandler. The answers of Incus and the reply of the client are parameters. What
-- is printed about the instance and about errors is left out, the question is not.
pub mod Safe
use ssh2incus.Base.{
  ℕ, zero, suc, ◌≡◌, ◌≢◌, refl, sym, ap, ◌∙◌, ◌↔◌, ◌⊎◌, inl, inr, Bool, true, false, not, ◌&&◌,
  ◌||◌, Option, none, some, List, [], ◌∷◌, ◌++◌, String, ltb, leb, ◌==◌, if◌then◌else◌, ◌+◌, ◌-◌,
  ◌*◌, ◌/◌, ◌%◌, ◌^◌, ◌≤◌, ◌<◌, length, All, arith, Bool-cases, Option-cases,
}
use ssh2incus.Base.Int.{ℤ, pos, negsuc, positive, negate}
use ssh2incus.Base.Result.{Result, ok, err}
use ssh2incus.Base.Text.{
  Text, codes, text_eq, is_empty, starts_with_byte, cut_prefix, is_some, or_else, has_prefix,
  trim_prefix, cut, split, join, contains, contains_byte, replace_all, atoi,
}
use ssh2incus.Base.Text.Space.{trim_space, to_lower}
use ssh2incus.LoginUser.{Login}
use ssh2incus.Shell.Trace.{
  Trace, done, next, ◌>>=◌, ◌>>◌, emit, pure, exit, Event, connected, printed, asked_instance,
  read_reply, stopped, deleted,
}

-- api.InstanceFull, as far as it is read
pub record Instance : Type 0 where
  pub status : Text
  pub ephemeral : Bool

-- `ticks` are the answers of InstanceExists until the 30 seconds are over.
pub record RemoveWorld : Type 0 where
  pub connect : Text → Result (Unit {0})
  pub get_cached_instance : Text → Text → Result (Option Instance)
  pub read : Result Text
  pub stop_instance : Result (Unit {0})
  pub stop_wait : Result (Unit {0})
  pub ticks : List (Result Bool)
  pub delete_instance : Result (Unit {0})
  pub delete_wait : Result (Unit {0})

-- strings.ToLower(strings.TrimRight(strings.TrimSpace(…), "\r\n")): nothing is left for TrimRight.
unfoldable pub is_yes : Text → Bool
unfolding trim_space to_lower
is_yes reply = text_eq (to_lower (trim_space reply)) (codes "yes")

module _ (w : RemoveWorld) (lu ru : Login) where
  abbrev pub check_result : Result (Unit {0}) → Trace (Unit {0})
  check_result (err m) = exit (pos 20)
  check_result (ok u) = pure tt

  unfoldable pub confirmed : Result Text → Trace (Unit {0})
  unfolding is_yes
  confirmed (err m) = exit (pos 0)
  confirmed (ok reply) = if is_yes reply then pure tt else exit (pos 0)

  abbrev pub question : Text
  question =
      codes "Are you sure you want to delete instance "
      ++ (ru.instance_name ++ (codes "." ++ (ru.project ++ codes "? Type 'yes' to confirm: ")))

  unfoldable pub confirm : Trace (Unit {0})
  unfolding confirmed
  confirm =
      if lu.force_remove
      then pure tt
      else do emit (printed question); emit read_reply; confirmed w.read

  abbrev pub gone : Trace ⊥ → Result Bool → Trace ⊥
  gone rest (ok false) = exit (pos 0)
  gone rest (ok true) = rest
  gone rest (err m) = rest

  -- An error is a reason to go on; the end of the ticks is the timeout.
  unfoldable pub wait_until_gone : List (Result Bool) → Trace ⊥
  wait_until_gone [] = exit (pos 20)
  wait_until_gone (tick ∷ ticks) =
      let rest = wait_until_gone ticks in
      emit (asked_instance ru.project ru.instance_name) >> gone rest tick

  unfoldable pub stop : Trace (Unit {0})
  stop = do
    emit (stopped ru.project ru.instance_name)
    check_result w.stop_instance
    check_result w.stop_wait

  unfoldable pub delete_instance : Trace ⊥
  delete_instance = do
    emit (deleted ru.project ru.instance_name)
    check_result w.delete_instance
    check_result w.delete_wait
    exit (pos 0)

  unfoldable pub remove_confirmed : Instance → Trace ⊥
  unfolding stop wait_until_gone delete_instance
  remove_confirmed inst =
      if text_eq inst.status (codes "Running")
      then (stop >> (if inst.ephemeral then wait_until_gone w.ticks else delete_instance))
      else delete_instance

  abbrev pub existing : Result (Option Instance) → Trace Instance
  existing (err m) = exit (pos 1)
  existing (ok none) = exit (pos 1)
  existing (ok (some inst)) = pure inst

  abbrev pub check_connected : Result (Unit {0}) → Trace (Unit {0})
  check_connected (err m) = exit (pos 255)
  check_connected (ok u) = pure tt

  -- The client is the one of the session, so that it connects to the session's remote.
  unfoldable pub remove_target : Trace ⊥
  unfolding confirm remove_confirmed
  remove_target = if not (text_eq lu.user (codes "root")) then exit (pos 1) else do
    emit (connected lu.remote)
    check_connected (w.connect lu.remote)
    emit (asked_instance ru.project ru.instance_name)
    inst ← existing (w.get_cached_instance ru.project ru.instance_name)
    confirm
    remove_confirmed inst

unfoldable pub remove_handler : RemoveWorld → Login → Option Login → Trace ⊥
unfolding remove_target
remove_handler w lu none = exit (pos 1)
remove_handler w lu (some ru) = remove_target w lu ru
