-- ===== src/Base/Dict.antt =====
-- Go's `map[string]V` as an association list. The program never depends on the order of a map's
-- entries where this type is used: it looks keys up, or writes every entry of one map to another.
use mathlib.Core.Path.{◌≡◌, refl}
use mathlib.Core.Logic.{◌⊎◌}
use mathlib.Core.Option.{Option, none, some}
use mathlib.Core.List.{List, [], ◌∷◌}
use native.Mathlib.Omega.{arith}
use ssh2incus.Base.Tests.{if◌then◌else◌}
use ssh2incus.Base.Text.{Text, text_eq}
use ssh2incus.Base.Text.Laws.{text_eq_iff}

abbrev pub Dict {ℓ} : Type ℓ → Type ℓ
Dict V = List (Text × V)

module _ {ℓ} {V : Type ℓ} where
  unfoldable pub lookup : Text → Dict V → Option V
  lookup k [] = none
  lookup k ((j, v) ∷ m) = if text_eq j k then some v else lookup k m

  -- m[k] = v
  unfoldable pub insert : Text → V → Dict V → Dict V
  insert k v [] = (k, v) ∷ []
  insert k v ((j, w) ∷ m) = if text_eq j k then (k, v) ∷ m else (j, w) ∷ insert k v m

  -- delete(m, k)
  unfoldable pub delete : Text → Dict V → Dict V
  delete k [] = []
  delete k ((j, v) ∷ m) = let rest = delete k m in if text_eq j k then rest else (j, v) ∷ rest

  -- for k, v := range from { into[k] = v }. The keys of a Go map are distinct, so that the order in
  -- which they are visited does not matter.
  unfoldable pub write_all : Dict V → Dict V → Dict V
  write_all [] into = into
  write_all ((k, v) ∷ from) into = insert k v (write_all from into)

  pub lookup-empty : (k : Text) → lookup k [] ≡ none
  unfolding lookup
  lookup-empty k = refl

  pub lookup-insert :
      (k j : Text) (v : V) (m : Dict V)
      → lookup j (insert k v m) ≡ (if text_eq k j then some v else lookup j m)
  unfolding lookup insert
  lookup-insert k j v [] = refl
  lookup-insert k j v ((i, w) ∷ m) =
      ground (arith, text_eq_iff k j, text_eq_iff i k, text_eq_iff i j, lookup-insert k j v m)

  pub lookup-delete :
      (k j : Text) (m : Dict V) → lookup j (delete k m) ≡ (if text_eq k j then none else lookup j m)
  unfolding lookup delete
  lookup-delete k j [] = ground arith
  lookup-delete k j ((i, w) ∷ m) =
      ground (arith, text_eq_iff k j, text_eq_iff i k, text_eq_iff i j, lookup-delete k j m)

  -- What is found behind an insertion was inserted, or was there.
  pub lookup-insert-some :
      (k j : Text) (v w : V) (m : Dict V)
      → lookup j (insert k v m) ≡ some w
      → ((k ≡ j) × (v ≡ w)) ⊎ (lookup j m ≡ some w)
  lookup-insert-some k j v w m h = ground (arith, text_eq_iff k j, lookup-insert k j v m)

  -- What is found behind a deletion was there.
  pub lookup-delete-some :
      (k j : Text) (w : V) (m : Dict V) → lookup j (delete k m) ≡ some w → lookup j m ≡ some w
  lookup-delete-some k j w m h = ground (arith, lookup-delete k j m)

  -- Deleting what was inserted under a new key gives the map back.
  pub delete-insert_new :
      (k : Text) (v : V) (m : Dict V) → lookup k m ≡ none → delete k (insert k v m) ≡ m
  unfolding lookup insert delete
  delete-insert_new k v [] h = ground (arith, text_eq_iff k k)
  delete-insert_new k v ((j, w) ∷ m) h = ground (arith, text_eq_iff j k, delete-insert_new k v m)

  pub lookup-insert_self : (k : Text) (v : V) (m : Dict V) → lookup k (insert k v m) ≡ some v
  lookup-insert_self k v m = ground (arith, text_eq_iff k k, lookup-insert k k v m)

  abbrev pub given_or : Option V → Option V → Option V
  given_or none old = old
  given_or (some v) old = some v

  pub lookup-write_all :
      (j : Text) (from into : Dict V)
      → lookup j (write_all from into) ≡ given_or (lookup j from) (lookup j into)
  unfolding lookup write_all
  lookup-write_all j [] into = refl
  lookup-write_all j ((k, v) ∷ from) into =
      ground (arith, lookup-insert k j v (write_all from into), lookup-write_all j from into)

pub ruleset dict_laws = (lookup-insert, lookup-delete)
