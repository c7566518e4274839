-- ===== src/DeviceRegistry/Shutdown.antt =====
-- Which devices a shutdown reaches.
use mathlib.Core.List.{Memᴰ}
use mathlib.Core.List.Memᴰ
use ssh2incus.Base.{
  ℕ, ◌≡◌, ◌≢◌, refl, sym, ap, ◌∙◌, inl, inr, Bool, false, Option, none, some, List, [], ◌∷◌, ◌+◌,
  All, arith, Bool-cases,
}
use ssh2incus.Base.Dict.{Dict, lookup, lookup-insert, lookup-delete}
use ssh2incus.Base.Text.{Text, text_eq}
use ssh2incus.Base.Text.Laws.{text_eq_iff, eq_of_text_eq}
use ssh2incus.DeviceRegistry.{
  Change, added, removed, changed_id, Turn, change, changes, add_device, remove_device,
  remove_existing, shut, shutdown_each, shutdown_all_devices, keys,
}

module _ {D : Type 0} (id : D → Text) where
  remove_existing-other :
      (j k : Text) (o : Option D) (r : Dict D)
      → j ≢ k
      → (let (left, found) = remove_existing id j o r in lookup k left) ≡ lookup k r
  remove_existing-other j k none r other = refl
  remove_existing-other j k (some d) r other = ground (arith, lookup-delete j k r, text_eq_iff j k)

  change-other :
      (k : Text) (c : Change id) (r : Dict D)
      → changed_id id c ≢ k
      → lookup k (change id c r) ≡ lookup k r
  unfolding change add_device remove_device
  change-other k (added d) r other =
      ground (arith, lookup-insert (id d) k d r, text_eq_iff (id d) k)
  change-other k (removed d) r other = remove_existing-other (id d) k (lookup (id d) r) r other

  abbrev pub IsElsewhere : Text → Change id → Type 0
  IsElsewhere k c = changed_id id c ≢ k

  changes-other :
      (k : Text) (cs : List (Change id)) (r : Dict D)
      → All (IsElsewhere k) cs
      → lookup k (changes id cs r) ≡ lookup k r
  unfolding changes
  changes-other k [] r other = refl
  changes-other k (c ∷ cs) r (h, hs) = changes-other k cs (change id c r) hs ∙ change-other k c r h

  -- The context lives, and what happens meanwhile concerns other devices.
  abbrev pub IsCalm : Text → Turn id → Type 0
  IsCalm k t = (t.is_done ≡ false) × All (IsElsewhere k) t.meanwhile

  -- The device is shut down, and the loop ends by itself.
  abbrev pub IsShut : D → List D × Bool → Type 0
  IsShut d s = Memᴰ d s.0 × (s.1 ≡ false)

  shut-later :
      (d : D) (o : Option D) (rest : List D × Bool) → IsShut d rest → IsShut d (shut id o rest)
  shut-later d none (ds, ended) m = m
  shut-later d (some e) (ds, ended) (m, alive) = (Memᴰ.tail m, alive)

  shut-now :
      (d : D) (o : Option D) (rest : List D × Bool)
      → o ≡ some d
      → rest.1 ≡ false
      → IsShut d (shut id o rest)
  shut-now d o (ds, ended) now alive = rw now (Memᴰ.head refl, alive)

  shut-alive : (o : Option D) (rest : List D × Bool) → (shut id o rest).1 ≡ rest.1
  shut-alive none (ds, ended) = refl
  shut-alive (some e) (ds, ended) = refl

  keys-lookup : (k : Text) (d : D) (r : Dict D) → lookup k r ≡ some d → Memᴰ k (keys id r)
  unfolding keys lookup
  keys-lookup k d [] h = cc
  keys-lookup k d ((j, e) ∷ r) h = elim (Bool-cases (text_eq j k)) [
    | inl same ↦ Memᴰ.head (sym (eq_of_text_eq j k same))
    | inr other ↦ Memᴰ.tail (keys-lookup k d r (sym (rw other refl) ∙ h))
  ]

  module _ (turns : ℕ → Turn id) (k : Text) (d : D) (calm : (n : ℕ) → IsCalm k (turns n)) where
    shutdown_each-alive :
        (n : ℕ) (ks : List Text) (r : Dict D) → (shutdown_each id turns n ks r).1 ≡ false
    unfolding shutdown_each
    shutdown_each-alive n [] r = refl
    shutdown_each-alive n (j ∷ ks) r =
        let (alive, others) = calm n in
        let now = changes id (turns n).meanwhile r in
        rw alive (
          shut-alive (lookup j now) (shutdown_each id turns (n + 1) ks now)
          ∙ shutdown_each-alive (n + 1) ks now)

    shutdown_each-IsShut :
        (n : ℕ) (ks : List Text) (r : Dict D)
        → Memᴰ k ks
        → lookup k r ≡ some d
        → IsShut d (shutdown_each id turns n ks r)
    unfolding shutdown_each
    shutdown_each-IsShut n [] r m h = absurd (Memᴰ.not-nil m)
    shutdown_each-IsShut n (j ∷ ks) r m h =
        let (alive, others) = calm n in
        let still = changes-other k (turns n).meanwhile r others ∙ h in
        let now = changes id (turns n).meanwhile r in
        let rest = shutdown_each id turns (n + 1) ks now in
        rw alive (elim (Memᴰ.cases_cons m) [
          | inl e ↦
              shut-now d (lookup j now) rest (ap (λ i. lookup i now) (sym e) ∙ still)
                (shutdown_each-alive (n + 1) ks now)
          | inr later ↦
              shut-later d (lookup j now) rest (shutdown_each-IsShut (n + 1) ks now later still)
        ])

  -- A device that is registered when the shutdown begins is shut down and the context
  -- ends nothing, if the context is not done and what others do meanwhile concerns devices with other ids.
  pub shutdown_all_devices-IsShut :
      (turns : ℕ → Turn id) (r : Dict D) (k : Text) (d : D)
      → ((n : ℕ) → IsCalm k (turns n))
      → lookup k r ≡ some d
      → IsShut d (shutdown_all_devices id turns r)
  unfolding shutdown_all_devices
  shutdown_all_devices-IsShut turns r k d calm h =
      shutdown_each-IsShut turns k d calm 0 (keys id r) r (keys-lookup k d r h) h
