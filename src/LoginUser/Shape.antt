-- ===== src/LoginUser/Shape.antt =====
-- The two shapes of a parsed login user.
use ssh2incus.Base.{none, ◌∷◌, zero, suc, ◌≡◌, ◌≢◌, ◌⊎◌, false, Option, some, [], arith, ℕ, true}
use ssh2incus.Base.Text.{Text, codes, starts_with_byte}
use ssh2incus.Base.Text.Laws.{text_eq_iff}
use ssh2incus.Base.Text.Cut.{Lacks, CutBy, cut-CutBy}
use ssh2incus.LoginUser.{Login, zero_login, LoginUser, login_user, nil}
use ssh2incus.LoginUser.Parse.{
  Host, parse_command, parse_creation_format, session_format, set_defaults, creation_parts,
  host_user_format, parse_instance_and_project, parse_instance_and_user, parse_remote_and_instance,
  parse_from, parse_regular_format, explaining, removing, clear, is_remove, is_force,
}
use ssh2incus.Base.{Bool-cases}
use ssh2incus.Base.{◌++◌}
use ssh2incus.Base.Text.{text_eq}
use ssh2incus.LoginUser.{pointer}
use ssh2incus.LoginUser.Parse.{is_force}
use ssh2incus.LoginUser.Parse.{is_remove}
use ssh2incus.Base.{inl}
use ssh2incus.Base.{◌==◌}
use ssh2incus.Base.{ap}
use ssh2incus.Base.{inr}
use ssh2incus.Base.{refl}
use ssh2incus.Base.{Bool}
use ssh2incus.Base.{if◌then◌else◌}
use ssh2incus.Base.Text.{cut}

-- What a parsed login user looks like: a login for an instance, which has a project, or a command.
abbrev pub IsInstanceLogin : LoginUser → Type 0
IsInstanceLogin (login_user lu e r) =
    (e ≡ nil) × (r ≡ nil) × (lu.command ≡ []) × (lu.project ≢ []) × (lu.force_remove ≡ false)

abbrev pub IsForceName : Text → Type 0
IsForceName name = (name ≡ codes "rm-f") ⊎ (name ≡ codes "remove-force")

abbrev pub IsRemoveName : Text → Type 0
IsRemoveName name = (name ≡ codes "rm") ⊎ ((name ≡ codes "remove") ⊎ IsForceName name)

-- A command without a target is the whole text, and has none; a text with a slash is a name and a
-- target. The four names of a removal all become `remove`, and two of them force it.
abbrev pub IsNamedBy : Text → LoginUser → Type 0
IsNamedBy cmd (login_user lu e r) =
    (Lacks b'/' cmd × (lu.command ≡ cmd) × (e ≡ nil) × (r ≡ nil) × (lu.force_remove ≡ false))
    ⊎ ((name : Text) × (target : Text) × (cmd ≡ name ++ b'/' ∷ target)
        × Lacks b'/' name
        × (((name ≡ codes "explain")
              × (lu.command ≡ codes "explain")
              × (e ≢ nil)
              × (r ≡ nil)
              × (lu.force_remove ≡ false))
            ⊎ ((IsForceName name
                  × (lu.command ≡ codes "remove")
                  × (e ≡ nil)
                  × (r ≢ nil)
                  × (lu.force_remove ≡ true))
                ⊎ ((IsRemoveName name
                      × (name ≢ codes "rm-f")
                      × (name ≢ codes "remove-force")
                      × (lu.command ≡ codes "remove")
                      × (e ≡ nil)
                      × (r ≢ nil)
                      × (lu.force_remove ≡ false))
                    ⊎ ((name ≢ codes "explain")
                        × (IsRemoveName name → ⊥)
                        × (lu.command ≡ name)
                        × (e ≡ nil)
                        × (r ≡ nil)
                        × (lu.force_remove ≡ false))))))

abbrev pub IsCommandLogin : Text → LoginUser → Type 0
IsCommandLogin cmd (login_user lu e r) =
    IsNamedBy cmd (login_user lu e r)
    × (lu.instance_name ≡ [])
    × (lu.project ≡ [])
    × (lu.instance_user ≡ [])
    × (lu.create_instance ≡ false)
    × (lu.persistent ≡ false)

-- What the parts of the parser leave alone, and that they end with a project.
abbrev Settled : Login → Login → Type 0
Settled lu' lu =
    (lu'.command ≡ lu.command) × (lu'.force_remove ≡ lu.force_remove) × (lu'.project ≢ [])

module _ (s : Text) (lu : Login) where
  instance_and_project-Settled : Settled (parse_instance_and_project s lu) lu
  unfolding parse_instance_and_project
  instance_and_project-Settled = ground arith

  instance_and_user-Settled : Settled (parse_instance_and_user s lu) lu
  unfolding parse_instance_and_user
  instance_and_user-Settled = ground arith

  remote_and_instance-Settled : Settled (parse_remote_and_instance s lu) lu
  unfolding parse_remote_and_instance
  remote_and_instance-Settled = ground arith

  host_user_format-Settled : Settled (host_user_format s lu) lu
  unfolding host_user_format
  host_user_format-Settled = ground arith

  session_format-Settled : Settled (session_format s lu) lu
  unfolding session_format
  session_format-Settled = ground arith

  creation_parts-Settled : Settled (creation_parts s lu) lu
  unfolding creation_parts
  creation_parts-Settled = ground arith

  creation_format-Settled : Settled (parse_creation_format s lu) lu
  unfolding parse_creation_format
  creation_format-Settled = ground arith

-- A name is explain's, or one that forces a removal, or another of a removal, or none of these.
name_cases :
    (name : Text)
    → (text_eq name (codes "explain") ≡ true)
      ⊎ (((text_eq name (codes "explain") ≡ false)
            × (is_remove name ≡ true)
            × (is_force name ≡ true))
          ⊎ (((text_eq name (codes "explain") ≡ false)
                × (is_remove name ≡ true)
                × (is_force name ≡ false))
              ⊎ ((text_eq name (codes "explain") ≡ false) × (is_remove name ≡ false))))
name_cases name = ground arith

is_force-IsForceName : (name : Text) → is_force name ≡ true → IsForceName name
unfolding is_force
is_force-IsForceName name h =
    ground (arith, text_eq_iff name (codes "rm-f"), text_eq_iff name (codes "remove-force"))

is_remove-IsRemoveName :
    (name : Text) → is_remove name ≡ true → is_force name ≡ false → IsRemoveName name
unfolding is_remove
is_remove-IsRemoveName name h k =
    ground (arith, text_eq_iff name (codes "rm"), text_eq_iff name (codes "remove"))

text_eq-ne : (s t : Text) → text_eq s t ≡ false → s ≢ t
text_eq-ne s t h e = let e' = (text_eq_iff s t).1 e in cc

is_force-ne :
    (name : Text) → is_force name ≡ false → (name ≢ codes "rm-f") × (name ≢ codes "remove-force")
unfolding is_force
is_force-ne name h = (text_eq-ne name _ (ground arith), text_eq-ne name _ (ground arith))

is_remove-ne : (name : Text) → is_remove name ≡ false → IsRemoveName name → ⊥
unfolding is_remove is_force
is_remove-ne name h (inl e) = text_eq-ne name _ (ground arith) e
is_remove-ne name h (inr (inl e)) = text_eq-ne name _ (ground arith) e
is_remove-ne name h (inr (inr (inl e))) = text_eq-ne name _ (ground arith) e
is_remove-ne name h (inr (inr (inr e))) = text_eq-ne name _ (ground arith) e

pointer_ne_nil : (t : LoginUser) → pointer t ≢ nil
pointer_ne_nil t e = cc

some_injective {ℓ} : {A : Type ℓ} (a b : A) → some a ≡ some b → a ≡ b
some_injective a b e = cc

module _ (lu : Login) where
  abbrev IsBlank : Type 0
  IsBlank = (lu.create_instance ≡ false) × (lu.persistent ≡ false) × (lu.force_remove ≡ false)

  module _ (name target cmd : Text) (e : cmd ≡ name ++ b'/' ∷ target)
      (lacks : Lacks b'/' name) where
    explaining-shape :
        (o : Option LoginUser) (r : LoginUser)
        → IsBlank
        → name ≡ codes "explain"
        → explaining lu o ≡ some r
        → IsCommandLogin cmd r
    explaining-shape none r b n h = cc
    explaining-shape (some t) r (c, p, f) n h = rw (← some_injective _ r h) (
      inr (name, target, e, lacks, inl (n, refl, pointer_ne_nil t, refl, f)),
      refl,
      refl,
      refl,
      c,
      p,
    )

    removing-shape :
        (force : Bool) (o : Option LoginUser) (r : LoginUser)
        → IsBlank
        → is_remove name ≡ true
        → is_force name ≡ force
        → removing force lu o ≡ some r
        → IsCommandLogin cmd r
    removing-shape force none r b n k h = cc
    removing-shape true (some t) r (c, p, f) n k h = rw (← some_injective _ r h) (
      inr (
        name,
        target,
        e,
        lacks,
        inr (inl (is_force-IsForceName name k, refl, refl, pointer_ne_nil t, refl)),
      ),
      refl,
      refl,
      refl,
      c,
      p,
    )
    removing-shape false (some t) r (c, p, f) n k h =
        let (a, b) = is_force-ne name k in
        rw (← some_injective _ r h) (
          inr (
            name,
            target,
            e,
            lacks,
            inr (
                inr (
                  inl (is_remove-IsRemoveName name n k, a, b, refl, refl, pointer_ne_nil t, refl))),
          ),
          refl,
          refl,
          refl,
          c,
          p,
        )

    other-shape :
        (r : LoginUser)
        → IsBlank
        → text_eq name (codes "explain") ≡ false
        → is_remove name ≡ false
        → some (login_user (clear name lu) nil nil) ≡ some r
        → IsCommandLogin cmd r
    other-shape r (c, p, f) n k h = rw (← some_injective _ r h) (
      inr (
        name,
        target,
        e,
        lacks,
        inr (inr (inr (text_eq-ne name _ n, is_remove-ne name k, refl, refl, refl, f))),
      ),
      refl,
      refl,
      refl,
      c,
      p,
    )

  command_shape :
      (parse_target : Text → Option LoginUser) (cmd : Text) (r : LoginUser)
      → IsBlank
      → parse_command parse_target cmd lu ≡ some r
      → IsCommandLogin cmd r
  unfolding parse_command
  command_shape parse_target cmd r b h = cut_shape (cut b'/' cmd) (cut-CutBy b'/' cmd) h
    where
      cut_shape :
          (o : Option (Text × Text))
          → CutBy b'/' cmd o
          → (elim o [
            | none ↦ some (login_user (clear cmd lu) nil nil)
            | some (name, target) ↦
                if text_eq name (codes "explain")
                then explaining lu (parse_target target)
                else if is_remove name
                then removing (is_force name) lu (parse_target target)
                else some (login_user (clear name lu) nil nil)
          ])
            ≡ some r
          → IsCommandLogin cmd r
      cut_shape none lacks h =
          rw (← some_injective _ r h)
            (inl (lacks, refl, refl, refl, b.2), refl, refl, refl, b.0, b.1)
      cut_shape (some (name, target)) (e, lacks) h = elim (name_cases name) [
        | inl x ↦
            explaining-shape name target cmd e lacks (parse_target target) r b
              ((text_eq_iff name (codes "explain")).0 x) (rw x at h)
        | inr (inl (x, y, z)) ↦
            removing-shape name target cmd e lacks true (parse_target target) r b y z
              (rw (x, y, z) at h)
        | inr (inr (inl (x, y, z))) ↦
            removing-shape name target cmd e lacks false (parse_target target) r b y z
              (rw (x, y, z) at h)
        | inr (inr (inr (x, y))) ↦ other-shape name target cmd e lacks r b x y (rw (x, y) at h)
      ]

-- What ParseFrom gives for a text that begins with `/` is a command, with no instance, no project and
-- no session. The command is the rest of the text, which may be empty, or its part before the next
-- slash, where the four names of a removal become `remove` and two of them force it; a target is there
-- exactly under `explain` or `remove` with a second slash. For any other text it is a login for an
-- instance, with a project, no command and no target.
pub parse_from-shape :
    (fuel : ℕ) (host : Host) (s : Text) (r : LoginUser)
    → parse_from fuel host s zero_login ≡ some r
    → ((cmd : Text) × (s ≡ b'/' ∷ cmd) × IsCommandLogin cmd r)
      ⊎ ((starts_with_byte b'/' s ≡ false) × IsInstanceLogin r)
unfolding parse_from parse_regular_format set_defaults
parse_from-shape zero host s r h = cc
parse_from-shape (suc fuel) host [] (login_user l e r) h =
    ground
      (arith, session_format-Settled [] (record (set_defaults host zero_login) { orig_user = [] }))
parse_from-shape (suc fuel) host (c ∷ s) (login_user l e r) h =
    let lu = record (set_defaults host zero_login) { orig_user = c ∷ s } in
    let target = λ (t : Text). parse_from fuel host t zero_login in
    elim (Bool-cases (c == b'/')) [
      | inl slash ↦ inl (
        s,
        ap (λ b. b ∷ s) (ground arith),
        command_shape lu target s (login_user l e r) (refl, refl, refl) (ground arith),
      )
      | inr other ↦ inr (
        other,
        ground (arith, session_format-Settled (c ∷ s) lu, creation_format-Settled (c ∷ s) lu),
      )
    ]
