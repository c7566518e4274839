-- ===== src/Base/Text/Split.antt =====
-- `split` takes apart what `join` puts together.
use mathlib.Core.List.{append_assoc, List, [], ◌∷◌, ◌++◌}
use mathlib.Core.Path.{◌≡◌, refl, ap}
use Prim.Native.Nat.{ℕ}
use native.Mathlib.Omega.{arith}
use ssh2incus.Base.Lists.{All}
use ssh2incus.Base.Text.{Text, split, join}
use ssh2incus.Base.Text.Cut.{Lacks}

pub split-eq_self : (sep : ℕ) (w : Text) → Lacks sep w → split sep w ≡ w ∷ []
unfolding split
split-eq_self sep [] h = refl
split-eq_self sep (c ∷ w) (h, hs) = ground (arith, split-eq_self sep w hs)

pub split-append : (sep : ℕ) (w s : Text) → Lacks sep w → split sep (w ++ sep ∷ s) ≡ w ∷ split sep s
unfolding split
split-append sep [] s h = ground arith
split-append sep (c ∷ w) s (h, hs) = ground (arith, split-append sep w s hs)

-- Fields that hold no separator come back from their join.
pub split-join :
    (sep : ℕ) (w : Text) (ws : List Text)
    → All (Lacks sep) (w ∷ ws)
    → split sep (join (sep ∷ []) (w ∷ ws)) ≡ w ∷ ws
unfolding join
split-join sep w [] (h, hs) = split-eq_self sep w h
split-join sep w (v ∷ ws) (h, hs) =
    rw (split-append sep w (join (sep ∷ []) (v ∷ ws)) h) (ap (λ l. w ∷ l) (split-join sep v ws hs))

pub join-append :
    (sep w v : Text) (ws vs : List Text)
    → join sep (w ∷ (ws ++ v ∷ vs)) ≡ join sep (w ∷ ws) ++ (sep ++ join sep (v ∷ vs))
unfolding join
join-append sep w v [] vs = refl
join-append sep w v (u ∷ ws) vs = rw (join-append sep u v ws vs) (simp append_assoc)
