-- ===== src/LoginUser/Session/Parts.antt =====
-- Parsing the parts of a printed session login, from the innermost part outwards.
use mathlib.Core.List.{append_assoc}
use ssh2incus.Base.{
  ℕ, ◌≡◌, ◌≢◌, refl, ◌∙◌, ap, false, none, some, [], ◌∷◌, ◌++◌, arith, All, if◌then◌else◌,
}
use ssh2incus.Base.Text.{Text, codes, is_empty, cut, replace_all}
use ssh2incus.Base.Text.Cut.{Lacks, Lacks-append, cut-append, cut-eq-none, replace_all-eq_self}
use ssh2incus.LoginUser.{Login}
use ssh2incus.LoginUser.Parse.{
  decode_at, parse_instance_and_project, parse_instance_and_user, parse_remote_and_instance,
  host_user_format,
}

-- A byte that no part of the login string may hold: one of `%+~/:@.`
abbrev pub IsPlain : ℕ → Type 0
IsPlain c = (c ≢ b'%') × (c ≢ b'+') × (c ≢ b'~') × (c ≢ b'/') × (c ≢ b':') × (c ≢ b'@') × (c ≢ b'.')

-- A project may also hold `+`, `/`, `@` and `.`.
abbrev pub IsProjectByte : ℕ → Type 0
IsProjectByte c = (c ≢ b'%') × (c ≢ b'~') × (c ≢ b':')

-- A login for a session, as a user would write its parts. The host user is any text.
pub record IsSession (lu : Login) : Type 0 where
  pub no_command : lu.command ≡ []
  pub no_create : lu.create_instance ≡ false
  pub remote : All IsPlain lu.remote
  pub instance_user : All IsPlain lu.instance_user
  pub instance_name : All IsPlain lu.instance_name
  pub project : All IsProjectByte lu.project
  pub has_project : lu.project ≢ []

pub All-map : (P Q : ℕ → Type 0) (f : (c : ℕ) → P c → Q c) (s : Text) → All P s → All Q s
All-map P Q f [] h = tt
All-map P Q f (c ∷ s) (h, hs) = (f c h, All-map P Q f s hs)

pub parse_instance_and_project-print :
    (i p : Text) (lu : Login)
    → Lacks b'.' i
    → p ≢ []
    → parse_instance_and_project (i ++ b'.' ∷ p) lu ≡ record lu { instance_name = i; project = p }
unfolding parse_instance_and_project
parse_instance_and_project-print i p lu hi hp = ground (arith, cut-append b'.' i p hi)

abbrev pub located : Text → Text → Text → Text
located u i p = u ++ b'@' ∷ (i ++ b'.' ∷ p)

pub decode_at-eq_self : (s : Text) → Lacks b'%' s → decode_at s ≡ s
unfolding decode_at
decode_at-eq_self s h =
    ap (replace_all (codes "%2540") (codes "@"))
      (replace_all-eq_self b'%' (codes "40") (codes "@") s h)
    ∙ replace_all-eq_self b'%' (codes "2540") (codes "@") s h

module _ (u i p : Text) (lu : Login) (hu : All IsPlain u) (hi : All IsPlain i)
    (hp : All IsProjectByte p) (full : p ≢ []) where
  located-Lacks :
      (b : ℕ) → b'@' ≢ b → b'.' ≢ b → Lacks b u → Lacks b i → Lacks b p → Lacks b (located u i p)
  located-Lacks b at dot ku ki kp = Lacks-append b u _ ku (at, Lacks-append b i _ ki (dot, kp))

  located-Lacks_percent : Lacks b'%' (located u i p)
  located-Lacks_percent =
      located-Lacks b'%' (omega arith) (omega arith)
        (All-map IsPlain (λ c. c ≢ b'%') (λ c h. h.0) u hu)
        (All-map IsPlain (λ c. c ≢ b'%') (λ c h. h.0) i hi)
        (All-map IsProjectByte (λ c. c ≢ b'%') (λ c h. h.0) p hp)

  located-Lacks_tilde : Lacks b'~' (located u i p)
  located-Lacks_tilde =
      located-Lacks b'~' (omega arith) (omega arith)
        (All-map IsPlain (λ c. c ≢ b'~') (λ c h. h.2) u hu)
        (All-map IsPlain (λ c. c ≢ b'~') (λ c h. h.2) i hi)
        (All-map IsProjectByte (λ c. c ≢ b'~') (λ c h. h.1) p hp)

  located-Lacks_colon : Lacks b':' (located u i p)
  located-Lacks_colon =
      located-Lacks b':' (omega arith) (omega arith)
        (All-map IsPlain (λ c. c ≢ b':') (λ c h. h.4) u hu)
        (All-map IsPlain (λ c. c ≢ b':') (λ c h. h.4) i hi)
        (All-map IsProjectByte (λ c. c ≢ b':') (λ c h. h.2) p hp)

  parse_instance_and_user-print :
      parse_instance_and_user (located u i p) lu
      ≡ record lu { instance_user = u; instance_name = i; project = p }
  unfolding parse_instance_and_user
  parse_instance_and_user-print = ground (
    arith,
    decode_at-eq_self (located u i p) located-Lacks_percent,
    cut-append b'@' u (i ++ b'.' ∷ p) (All-map IsPlain (λ c. c ≢ b'@') (λ c h. h.5) u hu),
    parse_instance_and_project-print i p (record lu { instance_user = u })
        (All-map IsPlain (λ c. c ≢ b'.') (λ c h. h.6) i hi) full,
  )

abbrev pub remote_prefix : Text → Text
remote_prefix r = if is_empty r then [] else r ++ codes ":"

pub cut_colon-print :
    (r s : Text)
    → Lacks b':' r
    → Lacks b':' s
    → cut b':' (remote_prefix r ++ s) ≡ (if is_empty r then none else some (r, s))
cut_colon-print [] s hr hs = cut-eq-none b':' s hs
cut_colon-print (c ∷ r) s hr hs = rw append_assoc (cut-append b':' (c ∷ r) s hr)

module _ (r u i p : Text) (lu : Login) (hr : All IsPlain r) (hu : All IsPlain u)
    (hi : All IsPlain i) (hp : All IsProjectByte p) (full : p ≢ []) (fresh : lu.remote ≡ []) where
  abbrev placed : Login
  placed = record lu { remote = r; instance_user = u; instance_name = i; project = p }

  parse_remote_and_instance-print :
      parse_remote_and_instance (remote_prefix r ++ located u i p) lu ≡ placed
  unfolding parse_remote_and_instance
  parse_remote_and_instance-print = ground (
    arith,
    cut_colon-print r (located u i p) (All-map IsPlain (λ c. c ≢ b':') (λ c h. h.4) r hr)
        (located-Lacks_colon u i p lu hu hi hp full),
    parse_instance_and_user-print u i p lu hu hi hp full,
    parse_instance_and_user-print u i p (record lu { remote = r }) hu hi hp full,
  )

pub remote_prefix-Lacks : (b : ℕ) (r : Text) → b':' ≢ b → Lacks b r → Lacks b (remote_prefix r)
remote_prefix-Lacks b [] h hr = tt
remote_prefix-Lacks b (c ∷ r) h hr = Lacks-append b (c ∷ r) (codes ":") hr (h, tt)

module _ (r u i p host : Text) (lu : Login) (hr : All IsPlain r) (hu : All IsPlain u)
    (hi : All IsPlain i) (hp : All IsProjectByte p) (full : p ≢ []) (fresh : lu.remote ≡ []) where
  pub host_user_format-print :
      host_user_format ((remote_prefix r ++ located u i p) ++ b'~' ∷ host) lu
      ≡ record lu { remote = r; instance_user = u; instance_name = i; project = p; user = host }
  unfolding host_user_format
  host_user_format-print = ground (
    arith,
    cut-append b'~' (remote_prefix r ++ located u i p) host (
        Lacks-append b'~' (remote_prefix r) (located u i p)
          (remote_prefix-Lacks b'~' r (omega arith)
            (All-map IsPlain (λ c. c ≢ b'~') (λ c h. h.2) r hr))
          (located-Lacks_tilde u i p lu hu hi hp full)),
    parse_remote_and_instance-print r u i p (record lu { user = host }) hr hu hi hp full fresh,
  )

-- The first byte of a login for a session without `%` selects neither a command nor a creation.
abbrev pub IsHead : ℕ → Type 0
IsHead c = (c ≢ b'%') × (c ≢ b'+') × (c ≢ b'~') × (c ≢ b'/')

pub IsHead-print :
    (r u rest : Text)
    → All IsPlain r
    → All IsPlain u
    → (c : ℕ) × (t : Text) × (remote_prefix r ++ (u ++ b'@' ∷ rest) ≡ c ∷ t) × IsHead c
IsHead-print [] [] rest hr hu = (b'@', rest, refl, omega arith)
IsHead-print [] (c ∷ u) rest hr (h, hu) = (c, u ++ b'@' ∷ rest, refl, omega arith)
IsHead-print (c ∷ r) u rest (h, hr) hu =
    (c, (r ++ codes ":") ++ (u ++ b'@' ∷ rest), refl, omega arith)
