-- ===== src/Incus/Devices.antt =====
-- The devices that a new instance gets.
use ssh2incus.Base.{◌≡◌, refl, ap, ◌∙◌, inl, inr, Option, none, some, [], ◌∷◌, Bool-cases}
use ssh2incus.Base.Text.{Text, text_eq, or_else}
use ssh2incus.Incus.{entries, merge_entries, merge_devices}
use ssh2incus.Base.Text.Laws.{text_eq_iff}
use ssh2incus.Base.Dict.{lookup-insert, write_all, Dict, lookup, given_or, lookup-write_all}

-- The entry `j` of the device `k`; a device that is not there has none.
unfoldable pub entry_of : Text → Option (Dict Text) → Option Text
unfolding lookup
entry_of j none = none
entry_of j (some d) = lookup j d

abbrev pub flat : Option (Option (Dict Text)) → Option (Dict Text)
flat none = none
flat (some d) = d

-- The keys of a Go map are distinct.
unfoldable pub IsMap {ℓ} : {A : Type ℓ} → Dict A → Type ℓ
unfolding lookup
IsMap [] = Unit
IsMap ((k, v) ∷ m) = (lookup k m ≡ none) × IsMap m

entry_of-base : (j : Text) (o : Option (Dict Text)) → lookup j (or_else o []) ≡ entry_of j o
unfolding lookup entry_of
entry_of-base j none = refl
entry_of-base j (some d) = refl

entry_of-flat : (j : Text) (v : Option (Dict Text)) → lookup j (entries v) ≡ entry_of j v
unfolding lookup entry_of
entry_of-flat j none = refl
entry_of-flat j (some d) = refl

module _ (j : Text) where
  entry_of-merged :
      (v : Option (Dict Text)) (o : Option (Dict Text))
      → entry_of j (some (write_all (entries v) (or_else o [])))
        ≡ given_or (entry_of j v) (entry_of j o)
  unfolding entry_of
  entry_of-merged v o =
      lookup-write_all j (entries v) (or_else o []) ∙ rw (entry_of-flat j v, entry_of-base j o)

  abbrev Merged : Text → Dict (Option (Dict Text)) → Dict (Dict Text) → Type 0
  Merged k d2 d1 =
      entry_of j (lookup k (merge_entries d2 d1))
      ≡ given_or (entry_of j (flat (lookup k d2))) (entry_of j (lookup k d1))

  merge_entries-Merged :
      (k : Text) (d2 : Dict (Option (Dict Text))) (d1 : Dict (Dict Text))
      → IsMap d2
      → Merged k d2 d1
  unfolding merge_entries IsMap lookup entry_of
  merge_entries-Merged k [] d1 h = refl
  merge_entries-Merged k ((i, v) ∷ d) d1 (fresh, h) = elim (Bool-cases (text_eq i k)) [
    | inl same ↦
        let e = (text_eq_iff i k).0 same in
        let below : entry_of j (lookup i (merge_entries d d1)) ≡ entry_of j (lookup i d1) =
          rw fresh at (merge_entries-Merged i d d1 h) in
        rw (lookup-insert, same)
          (entry_of-merged v (lookup i (merge_entries d d1))
            ∙ ap (given_or (entry_of j v)) (below ∙ ap (λ x. entry_of j (lookup x d1)) e))
    | inr other ↦ rw (lookup-insert, other) (merge_entries-Merged k d d1 h)
  ]

  -- Merging devices merges them entry by entry: an entry of a device is the one of the second map
  -- where it has one, and else the one of the first; a nil device adds nothing and takes nothing
  -- away. The second map's keys are distinct, as those of a Go map are.
  pub entry_of-merge_devices :
      (k : Text) (d1 : Dict (Dict Text)) (d2 : Dict (Option (Dict Text)))
      → IsMap d2
      → entry_of j (lookup k (merge_devices d1 d2))
        ≡ given_or (entry_of j (flat (lookup k d2))) (entry_of j (lookup k d1))
  unfolding merge_devices
  entry_of-merge_devices k d1 d2 h = merge_entries-Merged k d2 d1 h
