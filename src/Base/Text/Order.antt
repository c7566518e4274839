-- ===== src/Base/Text/Order.antt =====
-- The order of Go's strings, byte by byte.
use mathlib.Core.Path.{◌≡◌, refl}
use mathlib.Core.Bool.{Bool, true, false, ◌&&◌, ◌||◌}
use mathlib.Core.List.{[], ◌∷◌}
use native.Mathlib.Omega.{arith}
use ssh2incus.Base.Tests.{ltb, ◌==◌}
use ssh2incus.Base.Text.{Text}

unfoldable pub text_ltb : Text → Text → Bool
text_ltb s [] = false
text_ltb [] (d ∷ t) = true
text_ltb (c ∷ s) (d ∷ t) = ltb c d || ((c == d) && text_ltb s t)

pub text_ltb_asymm : (s t : Text) → text_ltb s t ≡ true → text_ltb t s ≡ false
unfolding text_ltb
text_ltb_asymm [] [] h = cc
text_ltb_asymm [] (d ∷ t) h = refl
text_ltb_asymm (c ∷ s) [] h = cc
text_ltb_asymm (c ∷ s) (d ∷ t) h = ground (arith, text_ltb_asymm s t)

-- `not (t < s)` is transitive.
pub text_ltb_trans :
    (r s t : Text) → text_ltb s r ≡ false → text_ltb t s ≡ false → text_ltb t r ≡ false
unfolding text_ltb
text_ltb_trans [] [] [] h k = refl
text_ltb_trans [] [] (c ∷ t) h k = refl
text_ltb_trans [] (b ∷ s) [] h k = refl
text_ltb_trans [] (b ∷ s) (c ∷ t) h k = refl
text_ltb_trans (a ∷ r) [] t h k = cc
text_ltb_trans (a ∷ r) (b ∷ s) [] h k = cc
text_ltb_trans (a ∷ r) (b ∷ s) (c ∷ t) h k = ground (arith, text_ltb_trans r s t)
