-- ===== src/CreateConfig/Profiles.antt =====
-- MergeProfiles and ApplyProfiles as their callers see them.
use ssh2incus.Base.{
  ℕ, ◌≡◌, refl, Option, none, some, List, [], ◌∷◌, arith, Option-cases, inl, inr, ◌⊎◌,
}
use ssh2incus.Base.Text.{Text}
use ssh2incus.Base.Dict.{Dict, lookup}
use ssh2incus.CreateConfig.{InstanceCreateConfig, CreateConfig, zero_config}
use ssh2incus.CreateConfig.Maps.{Store}
use ssh2incus.CreateConfig.Merge.{
  merge_loop, Outcome, merged, no_profile, merge_profiles, apply_profiles, merge_profile,
}
use ssh2incus.CreateConfig.Merge.Spec.{Selection, selected, missing, select, entry, select_first}
use ssh2incus.CreateConfig.Merge.Laws.{IsSeparate, last_entry}
use ssh2incus.CreateConfig.Merge.Loop.{IsMerge, merge_loop-IsMerge}

abbrev pub error_of : Selection → Option Text
error_of (selected ps) = none
error_of (missing name) = some name

abbrev outcome_error : Outcome → Option Text
outcome_error (merged r) = none
outcome_error (no_profile name partial) = some name

error_of-select_first :
    (p : InstanceCreateConfig) (rest : Selection) → error_of (select_first p rest) ≡ error_of rest
error_of-select_first p (selected ps) = refl
error_of-select_first p (missing name) = refl

merge_loop-error :
    (profiles : Dict InstanceCreateConfig) (names : List Text) (result : InstanceCreateConfig)
    (s : Store)
    → outcome_error (merge_loop profiles names result s).0 ≡ error_of (select profiles names)
unfolding merge_loop select
merge_loop-error profiles [] result s = refl
merge_loop-error profiles (name ∷ names) result s = elim (Option-cases (lookup name profiles)) [
  | inl absent ↦ ground (arith, merge_loop-error profiles names result s)
  | inr (p, found) ↦
      let (result', s') = merge_profile p (result, s) in
      ground (
        arith,
        merge_loop-error profiles names result s,
        merge_loop-error profiles names result' s',
        error_of-select_first p (select profiles names),
      )
]

module _ (c : CreateConfig) (names : List Text) (s : Store) where
  -- Both functions fail exactly with the first name that is not empty and that no profile has,
  -- and succeed when there is none. On an error MergeProfiles gives the zero config.
  pub profiles-error :
      ((merge_profiles c names s).0.1 ≡ error_of (select c.profiles names))
      × ((apply_profiles c names s).0.1 ≡ error_of (select c.profiles names))
      × (((merge_profiles c names s).0.1 ≡ none) ⊎ ((merge_profiles c names s).0.0 ≡ zero_config))
  unfolding merge_profiles apply_profiles
  profiles-error =
      let e = merge_loop-error c.profiles names c.defaults s in
      (ground (arith, e), ground (arith, e), ground arith)

  module _ (ps : List InstanceCreateConfig) (chosen : select c.profiles names ≡ selected ps)
      (apart : IsSeparate s c.defaults ps) where
    -- ApplyProfiles makes the active config the merge of the selected profiles over the defaults:
    -- each plain field, each entry of the config map and each device is the one of the last profile
    -- that gives it, where a nil device is none, or else the defaults' own. The maps of no selected
    -- profile are those of the defaults.
    pub apply_profiles-IsMerge :
        (r : InstanceCreateConfig) × (s' : Store) × (apply_profiles c names s
          ≡ ((record c { active = r }, none), s'))
        × IsMerge ps c.defaults s r s'
    unfolding apply_profiles
    apply_profiles-IsMerge =
        let (r, s', run, m) = merge_loop-IsMerge c.profiles names c.defaults s ps chosen apart in
        (r, s', rw run, m)

    -- MergeProfiles does change its receiver's state: where the defaults have a config map, that
    -- very map holds the merged entries afterwards.
    pub merge_profiles-defaults :
        (d : ℕ) (k : Text)
        → c.defaults.config ≡ some d
        → entry (merge_profiles c names s).1 c.defaults.config k
          ≡ last_entry s k ps (entry s c.defaults.config k)
    unfolding merge_profiles
    merge_profiles-defaults d k e =
        let (r, s', run, m) = merge_loop-IsMerge c.profiles names c.defaults s ps chosen apart in
        let same = m.shared d e in let read = m.entries k in ground (arith, run, same, read)
