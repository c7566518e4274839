-- ===== src/Web/Action/Scope.antt =====
-- What an action asks of Incus, and when it succeeds.
use ssh2incus.Base.{
  ◌≡◌, ◌≢◌, refl, sym, ◌∙◌, ◌↔◌, ◌⊎◌, inl, inr, true, false, some, List, [], All, arith, Bool-cases,
}
use ssh2incus.Base.Result.{Result, ok, err}
use ssh2incus.Base.Text.{Text, codes}
use ssh2incus.Base.Text.Laws.{text_eq_iff}
use ssh2incus.Web.Action.{
  InstanceActionRequest, Call, updated_state, deleted, Incus, is_valid_action, state_put, Response,
  after_action, delete_stopped, do_action, instance_action, instance_param, unless_err, succeeded,
  with_call,
}

abbrev pub IsAction : Text → Type 0
IsAction a = (a ≡ codes "start") ⊎ (a ≡ codes "stop") ⊎ (a ≡ codes "restart")

-- The instance is deleted only behind a stop that has succeeded.
abbrev pub IsAsked : Incus → Text → Text → InstanceActionRequest → Call → Type 0
IsAsked i project name req (updated_state p n put) =
    (p ≡ project) × (n ≡ name) × (put ≡ state_put req) × IsAction req.action
IsAsked i project name req (deleted p n) =
    (p ≡ project)
    × (n ≡ name)
    × (req.action ≡ codes "stop")
    × (req.delete ≡ true)
    × (i.update_instance_state project name (state_put req) ≡ ok tt)
    × (i.wait_update ≡ ok tt)

is_valid_action_iff : (a : Text) → (is_valid_action a ≡ true) ↔ IsAction a
unfolding is_valid_action
is_valid_action_iff a = ground (
  arith,
  text_eq_iff a (codes "start"),
  text_eq_iff a (codes "stop"),
  text_eq_iff a (codes "restart"),
)

true-ne-false : true ≢ false
true-ne-false h = cc

module _ (i : Incus) (project name : Text) (req : InstanceActionRequest) where
  abbrev AllAsked : Response × List Call → Type 0
  AllAsked t = All (IsAsked i project name req) t.1

  -- What has to go well for a response of success.
  abbrev pub GoesWell : Type 0
  GoesWell =
      IsAction req.action
      × (i.connect ≡ ok tt)
      × (i.update_instance_state project name (state_put req) ≡ ok tt)
      × (i.wait_update ≡ ok tt)
      × ((req.action ≢ codes "stop")
          ⊎ (req.delete ≡ false)
          ⊎ ((i.delete_instance project name ≡ ok tt) × (i.wait_delete ≡ ok tt)))

  unless_err-status :
      (r : Result (Unit {0})) (what : Text) (rest : Response × List Call)
      → ((unless_err r what rest).0.status ≡ 200) ↔ ((r ≡ ok tt) × (rest.0.status ≡ 200))
  unless_err-status (ok u) what rest = ground arith
  unless_err-status (err m) what rest = ground arith

  after_action-status : ((after_action i project name req).0.status ≡ 200) ↔ (
      (req.action ≢ codes "stop")
      ⊎ (req.delete ≡ false)
      ⊎ ((i.delete_instance project name ≡ ok tt) × (i.wait_delete ≡ ok tt)))
  unfolding after_action delete_stopped
  after_action-status = ground (
    arith,
    text_eq_iff req.action (codes "stop"),
    unless_err-status (i.delete_instance project name) (codes "Failed to delete instance: ")
        (unless_err i.wait_delete (codes "Failed to delete instance: ") (succeeded req, [])),
    unless_err-status i.wait_delete (codes "Failed to delete instance: ") (succeeded req, []),
  )

  abbrev Deleted : Type 0
  Deleted =
      (req.action ≢ codes "stop")
      ⊎ (req.delete ≡ false)
      ⊎ ((i.delete_instance project name ≡ ok tt) × (i.wait_delete ≡ ok tt))

  with_call-status : (c : Call) (t : Response × List Call) → (with_call c t).0 ≡ t.0
  with_call-status c (r, cs) = refl

  do_action-status : ((do_action i project name req).0.status ≡ 200) ↔ (
      (i.update_instance_state project name (state_put req) ≡ ok tt)
      × (i.wait_update ≡ ok tt)
      × Deleted)
  unfolding do_action
  do_action-status =
      let waited =
        unless_err i.wait_update (codes "Action failed: ") (after_action i project name req) in
      let (to_update, from_update) =
        unless_err-status (i.update_instance_state project name (state_put req))
          (codes "Failed to execute action: ") waited in
      let (to_wait, from_wait) =
        unless_err-status i.wait_update (codes "Action failed: ")
          (after_action i project name req) in
      let (to_after, from_after) = after_action-status in
      rw (with_call-status (updated_state project name (state_put req))) (
        (λ h. let (u, h') = to_update h in let (w, h'') = to_wait h' in (u, w, to_after h'')),
        (λ g. let (u, w, d) = g in from_update (u, from_wait (w, from_after d))),
      )

-- The response is a success exactly if the action is one of the three, and Incus did all that was asked:
-- the change of state, and the deletion where a stop asks for it too.
pub instance_action-succeeds_iff :
    (i : Incus) (instance : Text) (req : InstanceActionRequest)
    → ((instance_action i instance (some req)).0.status ≡ 200)
      ↔ GoesWell i (instance_param instance).1 (instance_param instance).0 req
unfolding instance_action
instance_action-succeeds_iff i instance req =
    let (name, project) = instance_param instance in
    let (to_connect, from_connect) =
      unless_err-status i project name req i.connect (codes "Failed to connect to Incus: ")
        (do_action i project name req) in
    let (to_done, from_done) = do_action-status i project name req in
    let (to_valid, from_valid) = is_valid_action_iff req.action in
    elim (Bool-cases (is_valid_action req.action)) [
      | inl valid ↦ rw valid (
        (λ h.
            let (c, h') = to_connect h in
            let (u, w, d) = to_done h' in (to_valid valid, c, u, w, d)),
        (λ g. let (a, c, u, w, d) = g in from_connect (c, from_done (u, w, d))),
      )
      | inr invalid ↦ rw invalid (
        (λ h. absurd (omega (arith, h))),
        (λ g. let (a, c, u, w, d) = g in absurd (true-ne-false (sym (from_valid a) ∙ invalid))),
      )
    ]
