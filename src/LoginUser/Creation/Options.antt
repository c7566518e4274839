-- ===== src/LoginUser/Creation/Options.antt =====
-- One printed option of a creation login sets one field again.
use ssh2incus.Base.{suc, ◌≡◌, true, false, some, [], ◌∷◌, ◌++◌, All, arith, refl}
use ssh2incus.Base.Int.{ℤ, pos, negsuc}
use ssh2incus.Base.Text.{
  Text, codes, contains_byte, has_prefix, trim_prefix, text_eq, starts_with_byte,
}
use ssh2incus.Base.Text.Cut.{Lacks}
use ssh2incus.Base.Text.Split.{split-eq_self}
use ssh2incus.Base.Text.Decimal.{itoa, IsDigit, itoa-IsDigit}
use ssh2incus.LoginUser.{LoginCreateConfig}
use ssh2incus.LoginUser.Parse.Config.{parse_option}
use ssh2incus.Base.Text.Numbers.{show_int, IsInt, atoi-show_int}

IsDigit-contains_byte : (s : Text) → All IsDigit s → contains_byte b'/' s ≡ false
unfolding contains_byte
IsDigit-contains_byte [] h = refl
IsDigit-contains_byte (c ∷ s) (h, hs) = ground (arith, IsDigit-contains_byte s hs)

show_int-contains_byte : (n : ℤ) → contains_byte b'/' (show_int n) ≡ false
unfolding show_int contains_byte
show_int-contains_byte (pos n) = IsDigit-contains_byte (itoa n) (itoa-IsDigit n)
show_int-contains_byte (negsuc n) = IsDigit-contains_byte (itoa (suc n)) (itoa-IsDigit (suc n))

module _ (config : LoginCreateConfig) where
  pub parse_option-memory :
      (n : ℤ)
      → IsInt n
      → parse_option (codes "m" ++ show_int n) config ≡ record config { memory = some n }
  unfolding parse_option contains_byte has_prefix
  parse_option-memory n h = ground (arith, show_int-contains_byte n, atoi-show_int n h)

  pub parse_option-cpu :
      (n : ℤ)
      → IsInt n
      → parse_option (codes "c" ++ show_int n) config ≡ record config { cpu = some n }
  unfolding parse_option contains_byte has_prefix
  parse_option-cpu n h = ground (arith, show_int-contains_byte n, atoi-show_int n h)

  pub parse_option-disk :
      (n : ℤ)
      → IsInt n
      → parse_option (codes "d" ++ show_int n) config ≡ record config { disk = some n }
  unfolding parse_option contains_byte has_prefix
  parse_option-disk n h = ground (arith, show_int-contains_byte n, atoi-show_int n h)

  pub parse_option-profile :
      (p : Text)
      → Lacks b',' p
      → parse_option (codes "%" ++ p) config
        ≡ record config { profiles = config.profiles ++ p ∷ [] }
  unfolding parse_option has_prefix trim_prefix
  parse_option-profile p h = ground (arith, split-eq_self b',' p h)

  pub parse_option-image :
      (image : Text)
      → contains_byte b'/' image ≡ true
      → starts_with_byte b'%' image ≡ false
      → parse_option image config ≡ record config { image = some image }
  unfolding parse_option has_prefix contains_byte
  parse_option-image [] a b = cc
  parse_option-image (c ∷ s) a b = ground arith

  pub parse_option-nest : parse_option (codes "nest") config ≡ record config { nesting = some true }
  unfolding parse_option has_prefix contains_byte text_eq
  parse_option-nest = refl

  pub parse_option-priv :
      parse_option (codes "priv") config ≡ record config { privileged = some true }
  unfolding parse_option has_prefix contains_byte text_eq
  parse_option-priv = refl

  pub parse_option-vm : parse_option (codes "vm") config ≡ record config { vm = some true }
  unfolding parse_option has_prefix contains_byte text_eq
  parse_option-vm = refl
