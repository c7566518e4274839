-- ===== src/Options/Methods.antt =====
-- init.go, parseAuthMethods.

use ssh2incus.Base.{
  ◌≡◌, ◌≢◌, refl, ap, ◌↔◌, ◌⊎◌, inl, inr, Bool, true, ◌||◌, List, [], ◌∷◌, if◌then◌else◌, All,
  arith, Bool-cases,
}
use ssh2incus.Base.Result.{Result, ok, err}
use ssh2incus.Base.Text.{Text, codes, text_eq, is_empty, split}
use ssh2incus.Base.Text.Space.{trim_space}
use ssh2incus.Base.Text.Laws.{text_eq_iff}

abbrev pub is_valid_method : Text → Bool
is_valid_method m = text_eq m (codes "password") || text_eq m (codes "publickey")

abbrev pub prepend_ok : Text → Result (List Text) → Result (List Text)
prepend_ok m (ok ms) = ok (m ∷ ms)
prepend_ok m (err e) = err e

-- The loop over the methods, which ends at the first invalid one.
unfoldable pub check_methods : List Text → Result (List Text)
unfolding trim_space
check_methods [] = ok []
check_methods (m ∷ ms) =
    let rest = prepend_ok (trim_space m) (check_methods ms) in
    if is_valid_method (trim_space m) then rest else err (codes "invalid authentication method")

unfoldable pub parse_auth_methods : Text → Result (List Text)
unfolding check_methods split
parse_auth_methods s = if is_empty s then ok [] else check_methods (split b',' s)

abbrev pub trimmed : List Text → List Text
trimmed [] = []
trimmed (m ∷ ms) = trim_space m ∷ trimmed ms

abbrev pub IsMethod : Text → Type 0
IsMethod m = (m ≡ codes "password") ⊎ (m ≡ codes "publickey")

is_valid_method_iff : (m : Text) → (is_valid_method m ≡ true) ↔ IsMethod m
is_valid_method_iff m =
    ground (arith, text_eq_iff m (codes "password"), text_eq_iff m (codes "publickey"))

prepend_ok-ok :
    (m : Text) (r : Result (List Text)) (rs : List Text)
    → prepend_ok m r ≡ ok rs
    → (ms : List Text) × (r ≡ ok ms) × (rs ≡ m ∷ ms)
prepend_ok-ok m (ok ms) rs h = (ms, refl, ground arith)
prepend_ok-ok m (err e) rs h = cc

check_methods-ok :
    (ms rs : List Text) → check_methods ms ≡ ok rs → (rs ≡ trimmed ms) × All IsMethod rs
unfolding check_methods
check_methods-ok [] [] h = (refl, tt)
check_methods-ok [] (r ∷ rs) h = cc
check_methods-ok (m ∷ ms) rs h = elim (Bool-cases (is_valid_method (trim_space m))) [
  | inl valid ↦
      let (tail, e, same) = prepend_ok-ok (trim_space m) (check_methods ms) rs (rw valid at h) in
      let (tails, all) = check_methods-ok ms tail e in
      rw same
        (ap (λ l. trim_space m ∷ l) tails, ((is_valid_method_iff (trim_space m)).0 valid, all))
  | inr invalid ↦
      let h' : err (codes "invalid authentication method") ≡ ok rs = rw invalid at h in cc
]

check_methods-trimmed :
    (ms : List Text) → All IsMethod (trimmed ms) → check_methods ms ≡ ok (trimmed ms)
unfolding check_methods
check_methods-trimmed [] h = refl
check_methods-trimmed (m ∷ ms) (h, hs) =
    rw ((is_valid_method_iff (trim_space m)).1 h)
      (ap (prepend_ok (trim_space m)) (check_methods-trimmed ms hs))

-- The option gives a list of methods exactly if it is empty, and then the list is, or if each of its
-- parts between commas is a method once it is trimmed, and then these are the list.
pub parse_auth_methods_iff :
    (s : Text) (rs : List Text)
    → (parse_auth_methods s ≡ ok rs)
      ↔ (((s ≡ []) × (rs ≡ [])) ⊎ ((s ≢ []) × (rs ≡ trimmed (split b',' s)) × All IsMethod rs))
unfolding parse_auth_methods
parse_auth_methods_iff [] rs = (λ h. inl (refl, ground arith), λ h. ground arith)
parse_auth_methods_iff (c ∷ s) rs = (
  λ h. let (same, all) = check_methods-ok (split b',' (c ∷ s)) rs h in inr ((λ e. cc), same, all),
  λ h. elim h [
    | inl (e, r) ↦ cc
    | inr (n, same, all) ↦ rw same (check_methods-trimmed (split b',' (c ∷ s)) (rw same at all))
  ],
)
