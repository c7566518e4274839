-- ===== src/Auth/Keys.antt =====
-- Which lines of keys getUserAuthKeys of server/user.go gives.
use ssh2incus.Base.{
  ◌≡◌, ◌≢◌, refl, sym, ap, ◌∙◌, ◌⊎◌, inl, inr, Option, none, some, List, [], ◌∷◌, ◌++◌,
}
use ssh2incus.Base.Result.{Result, ok, err, Result-cases}
use ssh2incus.Base.Text.{Text, codes}
use ssh2incus.Buffer.{scan}
use ssh2incus.Auth.{World, HostUser, no_keys, read_keys, get_user_auth_keys}

module _ (w : World) where
  -- The file can be opened, and these are its lines as the scanner leaves them, at least one.
  abbrev pub HasLines : Text → List Text → Type 0
  HasLines path lines =
      (content : Text) × (w.open_clean path ≡ ok content)
      × ((scan w.long content).0 ≡ lines)
      × (lines ≢ [])

  -- The file cannot be opened, or has no lines.
  abbrev pub LacksLines : Text → Type 0
  LacksLines path =
      ((m : Text) × (w.open_clean path ≡ err m))
      ⊎ ((content : Text) × (w.open_clean path ≡ ok content) × ((scan w.long content).0 ≡ []))

  -- The lines of authorized_keys under the user's home, or if there are none, of the user's file
  -- under /etc/ssh.
  abbrev pub AreKeys : HostUser → List Text → Type 0
  AreKeys u lines =
      HasLines (u.home_dir ++ codes "/.ssh/authorized_keys") lines
      ⊎ (LacksLines (u.home_dir ++ codes "/.ssh/authorized_keys")
          × HasLines (codes "/etc/ssh/authorized_keys.d/" ++ u.username) lines)

  ok_injective : (a b : List Text) → ok a ≡ ok b → a ≡ b
  ok_injective a b h = cc

  abbrev home_keys : HostUser → Text
  home_keys u = u.home_dir ++ codes "/.ssh/authorized_keys"

  abbrev etc_keys : HostUser → Text
  etc_keys u = codes "/etc/ssh/authorized_keys.d/" ++ u.username

  -- What a file that was opened makes of the keys that come after it.
  abbrev first_lines : List Text → Result (List Text) → Result (List Text)
  first_lines [] rest = rest
  first_lines (key ∷ keys) rest = ok (key ∷ keys)

  first_lines-cases :
      (found lines : List Text) (rest : Result (List Text))
      → first_lines found rest ≡ ok lines
      → ((found ≡ lines) × (lines ≢ [])) ⊎ ((found ≡ []) × (rest ≡ ok lines))
  first_lines-cases [] lines rest h = inr (refl, h)
  first_lines-cases (key ∷ keys) lines rest h =
      let same = ok_injective (key ∷ keys) lines h in inl (same, rw (← same) (λ e. cc))

  read_keys-opened :
      (path content : Text) (paths : List Text) (last : Option Text)
      → w.open_clean path ≡ ok content
      → read_keys w (path ∷ paths) last
        ≡ first_lines (scan w.long content).0 (read_keys w paths last)
  unfolding read_keys
  read_keys-opened path content paths last e = rw (read_keys, e) (same (scan w.long content).0)
    where
      same :
          (found : List Text)
          → (elim found [ [] ↦ read_keys w paths last | key ∷ keys ↦ ok (key ∷ keys) ])
            ≡ first_lines found (read_keys w paths last)
      same [] = refl
      same (key ∷ keys) = refl

  read_keys-failed :
      (path m : Text) (paths : List Text) (last : Option Text)
      → w.open_clean path ≡ err m
      → read_keys w (path ∷ paths) last ≡ read_keys w paths (some m)
  unfolding read_keys
  read_keys-failed path m paths last e = rw (read_keys, e) refl

  read_keys-step :
      (path : Text) (paths : List Text) (last : Option Text) (lines : List Text)
      → read_keys w (path ∷ paths) last ≡ ok lines
      → HasLines path lines
        ⊎ (LacksLines path × ((last' : Option Text) × (read_keys w paths last' ≡ ok lines)))
  read_keys-step path paths last lines h = elim (Result-cases (w.open_clean path)) [
    | inl (content, e) ↦
        elim (first_lines-cases (scan w.long content).0 lines (read_keys w paths last)
          (sym (read_keys-opened path content paths last e) ∙ h)) [
            | inl (found, some_line) ↦ inl (content, e, found, some_line)
            | inr (empty, rest) ↦ inr (inr (content, e, empty), (last, rest))
          ]
    | inr (m, e) ↦ inr (inl (m, e), (some m, sym (read_keys-failed path m paths last e) ∙ h))
  ]

  first_lines-some :
      (lines : List Text) (rest : Result (List Text))
      → lines ≢ []
      → first_lines lines rest ≡ ok lines
  first_lines-some [] rest h = absurd (h refl)
  first_lines-some (key ∷ keys) rest h = refl

  HasLines-read_keys :
      (path : Text) (paths : List Text) (last : Option Text) (lines : List Text)
      → HasLines path lines
      → read_keys w (path ∷ paths) last ≡ ok lines
  HasLines-read_keys path paths last lines (content, e, found, some_line) =
      read_keys-opened path content paths last e
      ∙ ap (λ ls. first_lines ls (read_keys w paths last)) found
      ∙ first_lines-some lines (read_keys w paths last) some_line

  LacksLines-read_keys :
      (path : Text) (paths : List Text) (last : Option Text)
      → LacksLines path
      → (last' : Option Text) × (read_keys w (path ∷ paths) last ≡ read_keys w paths last')
  LacksLines-read_keys path paths last (inl (m, e)) = (some m, read_keys-failed path m paths last e)
  LacksLines-read_keys path paths last (inr (content, e, empty)) = (
    last,
    read_keys-opened path content paths last e
        ∙ ap (λ ls. first_lines ls (read_keys w paths last)) empty,
  )

  no_keys-empty : (last : Option Text) (lines : List Text) → no_keys last ≡ ok lines → lines ≡ []
  no_keys-empty none lines h = sym (ok_injective [] lines h)
  no_keys-empty (some m) lines h = cc

  -- The keys, where there are any, are the lines of the first file that has lines.
  pub get_user_auth_keys-AreKeys :
      (u : HostUser) (lines : List Text)
      → lines ≢ []
      → get_user_auth_keys w u ≡ ok lines
      → AreKeys u lines
  unfolding get_user_auth_keys read_keys
  get_user_auth_keys-AreKeys u lines some_line h =
      elim (read_keys-step (home_keys u) (etc_keys u ∷ []) none lines h) [
        | inl home ↦ inl home
        | inr (lacks, (last, rest)) ↦
            elim (read_keys-step (codes "/etc/ssh/authorized_keys.d/" ++ u.username) [] last lines
              rest) [
                | inl etc ↦ inr (lacks, etc)
                | inr (lacks', (last', none_left)) ↦
                    absurd (some_line (no_keys-empty last' lines none_left))
              ]
      ]

  pub AreKeys-get_user_auth_keys :
      (u : HostUser) (lines : List Text) → AreKeys u lines → get_user_auth_keys w u ≡ ok lines
  unfolding get_user_auth_keys
  AreKeys-get_user_auth_keys u lines (inl home) =
      HasLines-read_keys (home_keys u) (etc_keys u ∷ []) none lines home
  AreKeys-get_user_auth_keys u lines (inr (lacks, etc)) =
      let (last, e) =
        LacksLines-read_keys (u.home_dir ++ codes "/.ssh/authorized_keys")
          ((codes "/etc/ssh/authorized_keys.d/" ++ u.username) ∷ []) none lacks in
      e ∙ HasLines-read_keys (etc_keys u) [] last lines etc
