-- ===== src/LoginUser/Total.antt =====
-- ParseFrom calls itself on the target of a command, which is shorter than the command.
use ssh2incus.Base.{
  ℕ, zero, suc, ◌<◌, ◌≡◌, ◌≢◌, inl, inr, Option, none, length, arith, Option-cases,
}
use ssh2incus.Base.Text.{Text, codes, cut, cut_prefix}
use ssh2incus.Base.Text.Cut.{length-cut, length-cut_prefix}
use ssh2incus.LoginUser.{Login, zero_login, LoginUser}
use ssh2incus.LoginUser.Parse.{Host, parse_command, parse_regular_format, parse_from, set_defaults}

-- The two target parsers give one result on every text shorter than `s`.
abbrev Agree : (Text → Option LoginUser) → (Text → Option LoginUser) → Text → Type 0
Agree f g s = (t : Text) → length t < length s → (f t ≡ g t) × (f t ≢ none)

module _ (f g : Text → Option LoginUser) (s : Text) (lu : Login) (agree : Agree f g s) where
  parse_command-agree :
      (parse_command f s lu ≡ parse_command g s lu) × (parse_command f s lu ≢ none)
  unfolding parse_command
  parse_command-agree = elim (Option-cases (cut b'/' s)) [
    | inl e ↦ ground arith
    | inr ((name, target), e) ↦ ground (arith, agree target (length-cut b'/' s name target e))
  ]

module _ (f g : Text → Option LoginUser) (s : Text) (lu : Login) (agree : Agree f g s) where
  parse_regular_format-agree :
      (parse_regular_format f s lu ≡ parse_regular_format g s lu)
      × (parse_regular_format f s lu ≢ none)
  unfolding parse_regular_format
  parse_regular_format-agree = elim (Option-cases (cut_prefix (codes "/") s)) [
    | inl e ↦ ground arith
    | inr (cmd, e) ↦ ground (
      arith,
      parse_command-agree f g cmd lu
          (λ t h. agree t (omega (arith, h, length-cut_prefix (codes "/") s cmd e))),
    )
  ]

-- ParseFrom ends: with more fuel than the text has bytes there is a result, and any two such
-- amounts of fuel give the same one.
pub parse_from-total :
    (n m : ℕ) (host : Host) (s : Text) (lu : Login)
    → length s < n
    → length s < m
    → (parse_from n host s lu ≡ parse_from m host s lu) × (parse_from n host s lu ≢ none)
unfolding parse_from
parse_from-total zero m host s lu h k = absurd (omega arith)
parse_from-total (suc n) zero host s lu h k = absurd (omega arith)
parse_from-total (suc n) (suc m) host s lu h k = ground (
  arith,
  parse_regular_format-agree (λ t. parse_from n host t zero_login)
      (λ t. parse_from m host t zero_login) s (record (set_defaults host lu) { orig_user = s })
      (λ t short. parse_from-total n m host t zero_login (omega arith) (omega arith)),
)
