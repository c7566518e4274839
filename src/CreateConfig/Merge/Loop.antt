-- ===== src/CreateConfig/Merge/Loop.antt =====
-- The whole loop of MergeProfiles and ApplyProfiles against its specification.
use ssh2incus.Base.{
  ℕ, ◌≡◌, refl, sym, ◌∙◌, ap, none, some, List, [], ◌∷◌, arith, Option-cases, Bool-cases, inl, inr,
  true, false,
}
use ssh2incus.Base.Text.{Text, is_empty}
use ssh2incus.Base.Dict.{Dict, lookup}
use ssh2incus.CreateConfig.{InstanceCreateConfig}
use ssh2incus.CreateConfig.Maps.{Store}
use ssh2incus.CreateConfig.Merge.{
  merge_profile, merge_loop, merged, merge_config, merge_devices, merge_scalars,
}
use ssh2incus.CreateConfig.Merge.Spec.{
  selected, missing, select, select_first, Selection, last_given, entry, device_entry,
}
use ssh2incus.CreateConfig.Merge.Laws.{
  HasScalars, after, scalars-after, entry-after, IsSeparate, keeps_IsSeparate, last_entry,
  last_entry-after, last_device, last_device-after, device-after,
}

HasScalars-cons :
    (p result mid r : InstanceCreateConfig) (ps : List InstanceCreateConfig)
    → HasScalars (p ∷ []) result mid
    → HasScalars ps mid r
    → HasScalars (p ∷ ps) result r
unfolding last_given
HasScalars-cons p result mid r ps a b = record {
  image = b.image ∙ ap (last_given (λ q. q.image) ps) a.image;
  memory = b.memory ∙ ap (last_given (λ q. q.memory) ps) a.memory;
  cpu = b.cpu ∙ ap (last_given (λ q. q.cpu) ps) a.cpu;
  disk = b.disk ∙ ap (last_given (λ q. q.disk) ps) a.disk;
  ephemeral = b.ephemeral ∙ ap (last_given (λ q. q.ephemeral) ps) a.ephemeral;
  vm = b.vm ∙ ap (last_given (λ q. q.vm) ps) a.vm;
}

-- `r` in the store `s'` is the merge of the profiles `ps` over `result` in the store `s`.
pub record IsMerge (ps : List InstanceCreateConfig) (result : InstanceCreateConfig) (s : Store)
    (r : InstanceCreateConfig) (s' : Store) : Type 0 where
  pub scalars : HasScalars ps result r
  pub entries : (k : Text) → entry s' r.config k ≡ last_entry s k ps (entry s result.config k)
  pub devices :
      (k : Text)
      → device_entry s' r.devices k ≡ last_device s k ps (device_entry s result.devices k)
  pub shared : (d : ℕ) → result.config ≡ some d → r.config ≡ some d

shared-after :
    (p result : InstanceCreateConfig) (s : Store) (d : ℕ)
    → result.config ≡ some d
    → (after p result s).0.config ≡ some d
unfolding merge_profile merge_scalars merge_config merge_devices
shared-after p result s d e = ground arith

IsMerge-nil : (result : InstanceCreateConfig) (s : Store) → IsMerge [] result s result s
unfolding last_given
IsMerge-nil result s = record {
  scalars = record {
    image = refl;
    memory = refl;
    cpu = refl;
    disk = refl;
    ephemeral = refl;
    vm = refl;
  };
  entries = λ k. refl;
  devices = λ k. refl;
  shared = λ d e. e;
}

IsMerge-cons :
    (p result r : InstanceCreateConfig) (s s' : Store) (ps : List InstanceCreateConfig)
    → IsSeparate s result (p ∷ ps)
    → IsMerge ps (after p result s).0 (after p result s).1 r s'
    → IsMerge (p ∷ ps) result s r s'
unfolding last_given
IsMerge-cons p result r s s' ps ((h, apart), hs) m = record {
  scalars = HasScalars-cons p result (after p result s).0 r ps (scalars-after p result s) m.scalars;
  entries = λ k.
      m.entries k
      ∙ last_entry-after p result s k ps _ hs
      ∙ ap (last_entry s k ps) (entry-after p result s k h);
  devices = λ k.
      m.devices k
      ∙ last_device-after p result s k ps _ hs
      ∙ ap (last_device s k ps) (device-after p result s k apart);
  shared = λ d e. m.shared d (shared-after p result s d e);
}

select_first-eq :
    (p : InstanceCreateConfig) (rest : Selection) (ps : List InstanceCreateConfig)
    → select_first p rest ≡ selected ps
    → (qs : List InstanceCreateConfig) × (rest ≡ selected qs) × (ps ≡ p ∷ qs)
select_first-eq p (selected qs) ps e = (qs, refl, cc)
select_first-eq p (missing name) ps e = cc

module _ (profiles : Dict InstanceCreateConfig) where
  merge_loop-cons :
      (name : Text) (names : List Text) (result : InstanceCreateConfig) (s : Store)
      (p : InstanceCreateConfig)
      → is_empty name ≡ false
      → lookup name profiles ≡ some p
      → merge_loop profiles (name ∷ names) result s
        ≡ merge_loop profiles names (after p result s).0 (after p result s).1
  unfolding merge_loop
  merge_loop-cons name names result s p full found = ground arith

  merge_loop-skip :
      (name : Text) (names : List Text) (result : InstanceCreateConfig) (s : Store)
      → is_empty name ≡ true
      → merge_loop profiles (name ∷ names) result s ≡ merge_loop profiles names result s
  unfolding merge_loop
  merge_loop-skip name names result s empty = ground arith

  select-skip :
      (name : Text) (names : List Text)
      → is_empty name ≡ true
      → select profiles (name ∷ names) ≡ select profiles names
  unfolding select
  select-skip name names empty = ground arith

  select-none :
      (name : Text) (names : List Text)
      → is_empty name ≡ false
      → lookup name profiles ≡ none
      → select profiles (name ∷ names) ≡ missing name
  unfolding select
  select-none name names full absent = ground arith

  select-some :
      (name : Text) (names : List Text) (p : InstanceCreateConfig)
      → is_empty name ≡ false
      → lookup name profiles ≡ some p
      → select profiles (name ∷ names) ≡ select_first p (select profiles names)
  unfolding select
  select-some name names p full found = ground arith

  -- The loop gives a merge of the selected profiles.
  pub merge_loop-IsMerge :
      (names : List Text) (result : InstanceCreateConfig) (s : Store)
      (ps : List InstanceCreateConfig)
      → select profiles names ≡ selected ps
      → IsSeparate s result ps
      → (r : InstanceCreateConfig) × (s' : Store) × (merge_loop profiles names result s
          ≡ (merged r, s'))
        × IsMerge ps result s r s'
  unfolding select merge_loop
  merge_loop-IsMerge [] result s [] e apart = (result, s, refl, IsMerge-nil result s)
  merge_loop-IsMerge [] result s (p ∷ ps) e apart = cc
  merge_loop-IsMerge (name ∷ names) result s ps e apart = elim (Bool-cases (is_empty name)) [
    | inl empty ↦
        let (r, s', run, m) =
          merge_loop-IsMerge names result s ps (sym (select-skip name names empty) ∙ e) apart in
        (r, s', merge_loop-skip name names result s empty ∙ run, m)
    | inr full ↦ elim (Option-cases (lookup name profiles)) [
      | inl absent ↦ cc (select-none name names full absent)
      | inr (p, found) ↦
          let (qs, rest, same) =
            select_first-eq p (select profiles names) ps
              (sym (select-some name names p full found) ∙ e) in
          let separate : IsSeparate s result (p ∷ qs) = rw same at apart in
          let (r, s', run, m) =
            merge_loop-IsMerge names (after p result s).0 (after p result s).1 qs rest
              (keeps_IsSeparate p result s qs separate.1) in
          (
            r,
            s',
            merge_loop-cons name names result s p full found ∙ run,
            rw same (IsMerge-cons p result r s s' qs separate m),
          )
    ]
  ]
