-- ===== src/ProxyDevice/Leftover/Remaining.antt =====
-- The devices of an instance when the cleaning is done.
use ssh2incus.Base.{
  ◌≡◌, ◌≢◌, refl, sym, ap, ◌∙◌, ◌⊎◌, inl, inr, Bool, true, false, ◌&&◌, ◌||◌, none, some, List, [],
  ◌∷◌, if◌then◌else◌, arith, Bool-cases,
}
use ssh2incus.Base.Result.{ok}
use ssh2incus.Base.Text.{Text, codes, text_eq, is_some, has_prefix}
use ssh2incus.Base.Text.Laws.{text_eq_iff, text_eq_refl, eq_of_text_eq}
use ssh2incus.Base.Dict.{Dict, lookup}
use ssh2incus.ProxyDevice.{Incus}
use ssh2incus.ProxyDevice.Laws.{IsIncus}
use ssh2incus.ProxyDevice.Leftover.{
  Listed, Host, prefix, clean_devices, clean_instances, clean_leftover_proxy_devices,
}
use ssh2incus.ProxyDevice.Leftover.Cleaned.{
  View, drop, after, Shows, Updates, clean_devices-elsewhere, clean_devices-Shows,
}
use mathlib.Core.Path.{subst}

-- A device of that name is listed for some instance of that name, in whatever project.
unfoldable pub is_listed : Text → Text → List Listed → Bool
unfolding text_eq lookup
is_listed n k [] = false
is_listed n k (l ∷ ls) = (text_eq l.name n && is_some (lookup k l.devices)) || is_listed n k ls

after_lem :
    (ds : Dict (Dict Text)) (v : View) (k : Text)
    → after ds v k ≡ (if has_prefix prefix k && is_some (lookup k ds) then none else v k)
unfolding lookup
after_lem [] v k = ground arith
after_lem ((x, d) ∷ ds) v k =
    after_lem ds (if has_prefix prefix x then drop x v else v) k
    ∙ first (Bool-cases (has_prefix prefix x)) (Bool-cases (text_eq x k))
  where
    first :
        (has_prefix prefix x ≡ true) ⊎ (has_prefix prefix x ≡ false)
        → (text_eq x k ≡ true) ⊎ (text_eq x k ≡ false)
        → (if has_prefix prefix k && is_some (lookup k ds)
            then none
            else (if has_prefix prefix x then drop x v else v) k)
          ≡ (if has_prefix prefix k && is_some (if text_eq x k then some d else lookup k ds)
              then none
              else v k)
    first (inl p) (inl q) =
        rw (p, q, ap (has_prefix prefix) (sym (eq_of_text_eq x k q)) ∙ p) (ground arith)
    first (inl p) (inr q) = rw (p, q) refl
    first (inr p) (inl q) = rw (p, q, ap (has_prefix prefix) (sym (eq_of_text_eq x k q)) ∙ p) refl
    first (inr p) (inr q) = rw (p, q) refl

-- The devices that are left to an instance of the project.
abbrev pub remaining : Text → Text → List Listed → View → View
remaining p n ls v k =
    if text_eq p (codes "default") && (has_prefix prefix k && is_listed n k ls) then none else v k

Shows-same :
    {S : Type 0} (i : Incus S) (p n : Text) (s : S) (u v : View)
    → Shows i p n s u
    → ((k : Text) → u k ≡ v k)
    → Shows i p n s v
Shows-same i p n s u v (inst, etag, got, shows) same = (inst, etag, got, λ k. shows k ∙ same k)

module _ {S : Type 0} (i : Incus S) (laws : IsIncus i) (updates : Updates i) where
  clean_instances-Shows :
      (n : Text) (ls : List Listed) (w : Host S) (v : View)
      → Shows i (codes "default") n w.server v
      → Shows i
          (codes "default")
          n
          (clean_instances i ls w).server
          (remaining (codes "default") n ls v)
  unfolding clean_instances is_listed
  clean_instances-Shows n [] w v h =
      Shows-same i (codes "default") n w.server v _ h (λ k. ground arith)
  clean_instances-Shows n (l ∷ ls) w v h = elim (Bool-cases (text_eq l.name n)) [
    | inl same ↦
        let e = eq_of_text_eq l.name n same in
        let here : Shows i (codes "default") n (clean_devices i l.name l.devices w).server
            (after l.devices v) =
          subst
            (λ m.
              Shows i (codes "default") n (clean_devices i m l.devices w).server
                (after l.devices v))
            (sym e) (clean_devices-Shows i laws updates n l.devices w v h) in
        Shows-same i (codes "default") n _ _ _
          (clean_instances-Shows n ls (clean_devices i l.name l.devices w) (after l.devices v) here)
          (λ k. ground (arith, after_lem l.devices v k, same, text_eq_refl (codes "default")))
    | inr other ↦
        let (inst, etag, got, shows) = h in
        let kept : i.get_instance (clean_devices i l.name l.devices w).server (codes "default") n
            ≡ ok (inst, etag) =
          clean_devices-elsewhere i laws updates l.name (codes "default") n l.devices w
            (inr (λ e. ground (arith, other, e, text_eq_iff l.name n)))
          ∙ got in
        Shows-same i (codes "default") n _ _ _
          (clean_instances-Shows n ls (clean_devices i l.name l.devices w) v
            (inst, etag, kept, shows))
          (λ k. ground (arith, other))
  ]

  clean_instances-elsewhere :
      (p n : Text) (ls : List Listed) (w : Host S)
      → codes "default" ≢ p
      → i.get_instance (clean_instances i ls w).server p n ≡ i.get_instance w.server p n
  unfolding clean_instances
  clean_instances-elsewhere p n [] w other = refl
  clean_instances-elsewhere p n (l ∷ ls) w other =
      clean_instances-elsewhere p n ls (clean_devices i l.name l.devices w) other
      ∙ clean_devices-elsewhere i laws updates l.name p n l.devices w (inl other)

  -- Where Incus is reached and its updates succeed, an instance keeps each of its devices, except that
  -- one in the project `default` loses those whose names begin with `proxy` and that are listed for an
  -- instance of its name, in whatever project. Instances of other projects lose none.
  pub clean_leftover-remaining :
      (p n : Text) (ls : List Listed) (w : Host S) (v : View)
      → i.connect w.server ≡ ok tt
      → Shows i p n w.server v
      → Shows i p n (clean_leftover_proxy_devices i (ok ls) w).1.server (remaining p n ls v)
  unfolding clean_leftover_proxy_devices
  clean_leftover-remaining p n ls w v connects h =
      rw connects (elim (Bool-cases (text_eq p (codes "default"))) [
        | inl same ↦
            let e = eq_of_text_eq p (codes "default") same in
            subst
              (λ q.
                Shows i q n w.server v
                → Shows i q n (clean_instances i ls w).server (remaining q n ls v))
              (sym e) (clean_instances-Shows n ls w v) h
        | inr other ↦
            let (inst, etag, got, shows) = h in
            (
              inst,
              etag,
              clean_instances-elsewhere p n ls w
                    (λ e. ground (arith, other, e, text_eq_iff p (codes "default")))
                  ∙ got,
              λ k. shows k ∙ ground (arith, other),
            )
      ])
