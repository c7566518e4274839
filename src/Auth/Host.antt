-- ===== src/Auth/Host.antt =====
-- Which keys the host accepts: hostAuthHandler of server/auth.go.
use ssh2incus.Base.{
  ◌≢◌, ◌≡◌, refl, sym, ap, ◌∙◌, ◌↔◌, ◌⊎◌, inl, inr, true, false, Option, none, some, List, [], ◌∷◌,
  ltb, length, arith, Bool-cases,
}
use ssh2incus.Base.Result.{Result, ok, err, ◌>>=◌, >>=_ok, Result-cases}
use ssh2incus.Base.Text.{Text, codes, text_eq}
use ssh2incus.Base.Text.Laws.{text_eq_iff, text_eq_refl}
use ssh2incus.LoginUser.{Login}
use ssh2incus.LoginUser.Valid.{KeyCache, check_login}
use ssh2incus.Auth.Keys.{AreKeys, get_user_auth_keys-AreKeys, AreKeys-get_user_auth_keys}
use ssh2incus.Auth.{
  World, Config, AuthState, HostUser, check_groups, checked_match, group_match, keys_equal,
  is_equal, member_of, get_user_auth_keys, check_host_user,
}
use ssh2incus.Auth.Handlers.{ask_valid, accept_key, auth_key_check, host_auth_handler, host_keys}

-- One of the lines parses to the key.
abbrev pub Authorizes : World → Text → List Text → Type 0
Authorizes w key [] = ⊥
Authorizes w key (line ∷ lines) = (w.parse_authorized_key line ≡ ok key) ⊎ Authorizes w key lines

-- Root, or no list of groups, or a group of the list that the user is in and that is known.
abbrev pub IsAllowed : World → Config → HostUser → Type 0
IsAllowed w config u =
    (u.uid ≡ codes "0")
    ⊎ (config.allowed_groups ≡ [])
    ⊎ ((groups : List Text) × (gid : Text) × (group : Text) × (w.group_ids u ≡ ok groups)
        × (group_match config.allowed_groups groups ≡ some gid)
        × (w.lookup_group_id gid ≡ ok group))

member_of-group_match :
    (as' bs : List Text) (gid : Text)
    → group_match as' bs ≡ some gid
    → (member_of gid as' ≡ true) × (member_of gid bs ≡ true)
unfolding group_match
member_of-group_match [] bs gid h = cc
member_of-group_match (a ∷ others) bs gid h =
    ground (arith, text_eq_refl gid, member_of-group_match others bs gid)

group_match-member_of :
    (as' bs : List Text) (gid : Text)
    → member_of gid as' ≡ true
    → member_of gid bs ≡ true
    → (g : Text) × (group_match as' bs ≡ some g)
unfolding group_match
group_match-member_of [] bs gid h m = cc
group_match-member_of (a ∷ others) bs gid h m = elim (Bool-cases (member_of a bs)) [
  | inl both ↦ (a, rw both)
  | inr other ↦ rw other (group_match-member_of others bs gid (ground (arith, text_eq_iff gid a)) m)
]

-- A group matches exactly if some group is on both lists, and the group that matches is on both.
pub group_match_iff :
    (allowed groups : List Text)
    → (((g : Text) × (group_match allowed groups ≡ some g))
        ↔ ((g : Text) × (member_of g allowed ≡ true) × (member_of g groups ≡ true)))
      × ((g : Text)
          → group_match allowed groups ≡ some g
          → (member_of g allowed ≡ true) × (member_of g groups ≡ true))
group_match_iff allowed groups = (
  (
    λ h. let (a, b) = member_of-group_match allowed groups h.0 h.1 in (h.0, a, b),
    λ h. group_match-member_of allowed groups h.0 h.1 h.2,
  ),
  member_of-group_match allowed groups,
)

module _ (k : KeyCache) (w : World) (config : Config) (lu : Login) (key : Text) where
  is_equal_result :
      (r : Result Text) → (is_equal (r >>= λ pkey. ok (text_eq pkey key)) ≡ true) ↔ (r ≡ ok key)
  is_equal_result (ok pkey) = ground (arith, text_eq_iff pkey key)
  is_equal_result (err m) = ground arith

  is_equal_iff :
      (line : Text)
      → (is_equal (keys_equal w key line) ≡ true) ↔ (w.parse_authorized_key line ≡ ok key)
  unfolding keys_equal
  is_equal_iff line = is_equal_result (w.parse_authorized_key line)

  accept_key_iff :
      (st : AuthState k)
      → ((accept_key k w config lu key st).0 ≡ true)
        ↔ ((check_login k w.client lu st.caches).0 ≡ true)
  unfolding accept_key ask_valid
  accept_key_iff st = ground arith

  -- Keys are compared with the lines one by one, and the first that matches settles the matter: the
  -- check succeeds exactly if one of the lines is the key and the login is valid.
  pub auth_key_check_iff :
      (keys : List Text) (st : AuthState k)
      → ((auth_key_check k w config lu key keys st).0 ≡ true)
        ↔ (Authorizes w key keys × ((check_login k w.client lu st.caches).0 ≡ true))
  unfolding auth_key_check
  auth_key_check_iff [] st = ((λ h. cc), λ h. absurd h.0)
  auth_key_check_iff (line ∷ keys) st =
      ground (arith, is_equal_iff line, accept_key_iff st, auth_key_check_iff keys st)

module _ (w : World) (config : Config) (u : HostUser) where
  -- A group that matches and is known.
  abbrev InGroup : Type 0
  InGroup =
      (groups : List Text) × (gid : Text) × (group : Text) × (w.group_ids u ≡ ok groups)
      × (group_match config.allowed_groups groups ≡ some gid)
      × (w.lookup_group_id gid ≡ ok group)

  checked_match_ok :
      (o : Option Text) (v : HostUser)
      → checked_match w u o ≡ ok v
      → (v ≡ u)
        × ((gid : Text) × (group : Text) × (o ≡ some gid) × (w.lookup_group_id gid ≡ ok group))
  checked_match_ok none v h = cc
  checked_match_ok (some gid) v h = elim (Result-cases (w.lookup_group_id gid)) [
    | inl (group, e) ↦ (cc, (gid, group, refl, e))
    | inr (m, e) ↦ cc
  ]

  abbrev group_result : Result HostUser
  group_result =
      w.group_ids u >>= λ groups. checked_match w u (group_match config.allowed_groups groups)

  group_result_ok : (v : HostUser) → group_result ≡ ok v → (v ≡ u) × InGroup
  group_result_ok v h = elim (Result-cases (w.group_ids u)) [
    | inl (groups, e) ↦
        let h' : checked_match w u (group_match config.allowed_groups groups) ≡ ok v = rw e at h in
        let (same, (gid, group, m, g)) =
          checked_match_ok (group_match config.allowed_groups groups) v h' in
        (same, (groups, gid, group, e, m, g))
    | inr (m, e) ↦ cc
  ]

  length_zero : {A : Type 0} → (xs : List A) → ltb 0 (length xs) ≡ false → xs ≡ []
  length_zero [] h = refl
  length_zero (x ∷ xs) h = ground arith

  check_groups_ok : (v : HostUser) → check_groups w config u ≡ ok v → (v ≡ u) × IsAllowed w config u
  unfolding check_groups
  check_groups_ok v h =
      ground
        (arith, group_result_ok v, text_eq_iff u.uid (codes "0"), length_zero config.allowed_groups)

  allowed_ok : IsAllowed w config u → check_groups w config u ≡ ok u
  unfolding check_groups
  allowed_ok (inl root) = rw (root, text_eq_refl (codes "0"))
  allowed_ok (inr (inl anyone)) = ground arith
  allowed_ok (inr (inr (groups, gid, group, e, m, g))) = ground arith

module _ (k : KeyCache) (w : World) (config : Config) (lu : Login) (key : Text) where
  -- The host knows the user, the user is allowed, and one of the lines of its keys is the key.
  abbrev pub HostAccepts : Type 0
  HostAccepts =
      (u : HostUser) × (lines : List Text) × (w.lookup_user lu.user ≡ ok u)
      × IsAllowed w config u
      × AreKeys w u lines
      × Authorizes w key lines

  some_line : (lines : List Text) → Authorizes w key lines → lines ≢ []
  some_line [] a e = absurd a
  some_line (l ∷ ls) a e = cc

  host_keys_ok :
      (lines : List Text)
      → host_keys k w config lu ≡ ok lines
      → (u : HostUser) × (w.lookup_user lu.user ≡ ok u)
        × IsAllowed w config u
        × (get_user_auth_keys w u ≡ ok lines)
  unfolding host_keys check_host_user
  host_keys_ok lines h =
      let (v, checked, l) = >>=_ok (check_host_user w config lu) (get_user_auth_keys w) lines h in
      let (u, e, c) = >>=_ok (w.lookup_user lu.user) (check_groups w config) v checked in
      let (same, allowed) = check_groups_ok w config u v c in
      (u, e, allowed, ap (get_user_auth_keys w) (sym same) ∙ l)

  ok_host_keys :
      (u : HostUser) (lines : List Text)
      → w.lookup_user lu.user ≡ ok u
      → IsAllowed w config u
      → get_user_auth_keys w u ≡ ok lines
      → host_keys k w config lu ≡ ok lines
  unfolding host_keys check_host_user
  ok_host_keys u lines e allowed l = rw (e, allowed_ok w config u allowed) l

  -- The host accepts a key exactly if it knows the user, the user is root or in an allowed group that
  -- exists, or no group is asked for, a line of the user's keys parses to the key, and the login is
  -- valid. The keys are the lines of authorized_keys under the user's home, or if that file cannot be
  -- opened or has no lines, of the user's file under /etc/ssh, as they stand in the scanner's buffer at
  -- its end: the lines of the file itself where it has at most 2048 bytes.
  pub host_auth_handler_iff :
      (st : AuthState k)
      → ((host_auth_handler k w config lu key st).0 ≡ true)
        ↔ (HostAccepts × ((check_login k w.client lu st.caches).0 ≡ true))
  unfolding host_auth_handler
  host_auth_handler_iff st = (
    λ h. elim (Result-cases (host_keys k w config lu)) [
      | inl (lines, e) ↦
          let h' : (auth_key_check k w config lu key lines st).0 ≡ true = rw e at h in
          let (u, f, allowed, l) = host_keys_ok lines e in
          let (a, valid) = (auth_key_check_iff k w config lu key lines st).0 h' in
          (
            (u, lines, f, allowed, get_user_auth_keys-AreKeys w u lines (some_line lines a) l, a),
            valid,
          )
      | inr (m, e) ↦ let h' : false ≡ true = rw e at h in cc
    ],
    λ h.
        let ((u, lines, f, allowed, l, a), valid) = h in
        rw (ok_host_keys u lines f allowed (AreKeys-get_user_auth_keys w u lines l))
          ((auth_key_check_iff k w config lu key lines st).1 (a, valid)),
  )
