-- ===== src/Web/Credentials/Access.antt =====
-- Who gets past the basic authentication of the web interface.
use ssh2incus.Base.{
  ◌≡◌, ◌≢◌, refl, sym, ap, ◌∙◌, ◌↔◌, ◌⊎◌, inl, inr, true, ◌||◌, Option, none, some, List, [], ◌∷◌,
  if◌then◌else◌, arith, Bool-cases, some_pair,
}
use ssh2incus.Base.Text.{Text, text_eq, is_empty, cut, split}
use ssh2incus.Base.Text.Space.{trim_space}
use ssh2incus.Base.Text.Laws.{text_eq_iff, text_eq_refl}
use ssh2incus.Base.Dict.{Dict, lookup, lookup-insert, lookup-empty, given_or}
use ssh2incus.Web.Credentials.{
  user_password, add_pair, add_pairs, parse_web_auth_credentials, expected, basic_auth_validator,
  let_in, is_served,
}

abbrev valid_account : Text × Text → Option (Text × Text)
valid_account (a, b) =
    if is_empty (trim_space a) || is_empty (trim_space b)
    then none
    else some (trim_space a, trim_space b)

abbrev account_of : Option (Text × Text) → Option (Text × Text)
account_of none = none
account_of (some ab) = valid_account ab

-- The user and the password of an item `user:password`: neither is empty once it is trimmed.
abbrev pub account : Text → Option (Text × Text)
account item = account_of (cut b':' (trim_space item))

abbrev pub password_for : Text → Option (Text × Text) → Option Text
password_for u none = none
password_for u (some (v, p)) = if text_eq v u then some p else none

-- The password of a user in a list of items: the last item of that user counts.
abbrev pub listed : List Text → Text → Option Text
listed [] u = none
listed (i ∷ is) u = given_or (listed is u) (password_for u (account i))

lookup-user_password :
    (u : Text) (o : Option (Text × Text)) (c : Dict Text)
    → lookup u (user_password o c) ≡ given_or (password_for u (account_of o)) (lookup u c)
lookup-user_password u none c = refl
lookup-user_password u (some (a, b)) c =
    ground (arith, lookup-insert (trim_space a) u (trim_space b) c)

account_of-empty : (s : Text) → is_empty s ≡ true → account_of (cut b':' s) ≡ none
unfolding cut
account_of-empty [] e = refl
account_of-empty (c ∷ s) e = cc

lookup-add_pair :
    (u i : Text) (c : Dict Text)
    → lookup u (add_pair i c) ≡ given_or (password_for u (account i)) (lookup u c)
unfolding add_pair
lookup-add_pair u i c = elim (Bool-cases (is_empty (trim_space i))) [
  | inl e ↦ rw (e, account_of-empty (trim_space i) e) refl
  | inr e ↦ rw e (lookup-user_password u (cut b':' (trim_space i)) c)
]

given_or_assoc :
    {A : Type 0} (a b c : Option A) → given_or (given_or a b) c ≡ given_or a (given_or b c)
given_or_assoc none b c = refl
given_or_assoc (some x) b c = refl

lookup-add_pairs :
    (u : Text) (is : List Text) (c : Dict Text)
    → lookup u (add_pairs is c) ≡ given_or (listed is u) (lookup u c)
unfolding add_pairs
lookup-add_pairs u [] c = refl
lookup-add_pairs u (i ∷ is) c =
    lookup-add_pairs u is (add_pair i c)
    ∙ ap (given_or (listed is u)) (lookup-add_pair u i c)
    ∙ sym (given_or_assoc (listed is u) (password_for u (account i)) (lookup u c))

abbrev pub items : Text → List Text
items web_auth = split b',' web_auth

lookup-parse : (s u : Text) → s ≢ [] → lookup u (parse_web_auth_credentials s) ≡ listed (items s) u
unfolding parse_web_auth_credentials
lookup-parse [] u some_byte = absurd (some_byte refl)
lookup-parse (c ∷ s) u some_byte =
    lookup-add_pairs u (items (c ∷ s)) [] ∙ given_or-lookup_nil (listed (items (c ∷ s)) u)
  where
    given_or-lookup_nil : (o : Option Text) → given_or o (lookup u []) ≡ o
    given_or-lookup_nil none = lookup-empty u
    given_or-lookup_nil (some p) = refl

expected_iff : (p : Text) (o : Option Text) → (expected p o ≡ true) ↔ (o ≡ some p)
expected_iff p none = ground arith
expected_iff p (some q) = ground (arith, text_eq_iff q p)

head_listed : (u p : Text) (c : Dict Text) → lookup u ((u, p) ∷ c) ≡ some p
unfolding lookup
head_listed u p c = rw (text_eq_refl u) refl

none-ne-some : (p : Text) → none ≢ some p
none-ne-some p h = cc

-- What the middleware does with credentials that hold the passwords of `f`.
let_in_iff :
    (c : Dict Text) (f : Text → Option Text) (given : Option (Text × Text))
    → ((u : Text) → lookup u c ≡ f u)
    → (let_in c given ≡ true) ↔ (
        ((u : Text) → f u ≡ none)
        ⊎ ((u : Text) × (p : Text) × (given ≡ some (u, p)) × (f u ≡ some p)))
unfolding basic_auth_validator
let_in_iff [] f given same = ((λ h. inl (λ u. sym (same u) ∙ lookup-empty u)), (λ h. refl))
let_in_iff ((v, q) ∷ c) f none same = (
  (λ h. cc),
  (λ h. elim h [
    | inl nobody ↦ absurd (none-ne-some q (sym (nobody v) ∙ (sym (same v) ∙ head_listed v q c)))
    | inr found ↦ let (u, p, e, l) = found in cc
  ]),
)
let_in_iff ((v, q) ∷ c) f (some (u, p)) same = (
  (λ h. inr (u, p, refl, sym (same u) ∙ (expected_iff p (lookup u ((v, q) ∷ c))).0 h)),
  (λ h. elim h [
    | inl nobody ↦ absurd (none-ne-some q (sym (nobody v) ∙ (sym (same v) ∙ head_listed v q c)))
    | inr found ↦
        let (u', p', e, l) = found in
        let (eu, ep) = some_pair u u' p p' e in
        (expected_iff p (lookup u ((v, q) ∷ c))).1 (same u ∙ (ap f eu ∙ (l ∙ ap some (sym ep))))
  ]),
)

-- With the option of web authentication not empty, a request is served exactly if it gives a user with
-- the password listed for that user, or if the option lists nobody: then everybody is let in.
pub is_served_iff :
    (web_auth : Text) (given : Option (Text × Text))
    → web_auth ≢ []
    → (is_served web_auth given ≡ true) ↔ (
        ((u : Text) → listed (items web_auth) u ≡ none)
        ⊎ ((u : Text) × (p : Text) × (given ≡ some (u, p)) × (listed (items web_auth) u ≡ some p)))
unfolding is_served
is_served_iff [] given some_byte = absurd (some_byte refl)
is_served_iff (c ∷ s) given some_byte =
    let_in_iff (parse_web_auth_credentials (c ∷ s)) (listed (items (c ∷ s))) given
      (λ u. lookup-parse (c ∷ s) u some_byte)
