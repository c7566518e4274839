-- ===== src/Incus/Exec/Width.antt =====
-- The numbers of users and groups in a request are 32 bits wide.
use ssh2incus.Base.{ℕ, ◌≡◌, ◌≢◌, refl, ap, ◌↔◌, List, ◌%◌, ◌^◌, ◌<◌, arith}
use ssh2incus.Base.Int.{ℤ, pos, negsuc}
use ssh2incus.Base.Text.{Text}
use ssh2incus.Incus.Exec.{InstanceExec, uint32, build_exec_request}

abbrev Wide : ℤ → Type 0
Wide n = (uint32 n < 2 ^ 32) × ((n ≡ pos (uint32 n)) ↔ ((u : ℕ) × (n ≡ pos u) × (u < 2 ^ 32)))

pos_injective : (m n : ℕ) → pos m ≡ pos n → m ≡ n
pos_injective m n h = cc

negsuc-ne-pos : (m n : ℕ) → negsuc m ≢ pos n
negsuc-ne-pos m n h = cc

uint32-Wide : (n : ℤ) → Wide n
unfolding uint32
uint32-Wide (pos n) = (
  omega arith,
  (
    (λ h. let e = pos_injective n (n % 2 ^ 32) h in (n, refl, omega (arith, e))),
    (λ g. let (u, e, lt) = g in let e' = pos_injective n u e in ap pos (omega (arith, e'))),
  ),
)
uint32-Wide (negsuc n) = (
  omega arith,
  ((λ h. absurd (negsuc-ne-pos n _ h)), (λ g. let (u, e, lt) = g in absurd (negsuc-ne-pos n u e))),
)

-- The user and the group of a request are 32-bit numbers whatever the fields hold, and they are the
-- fields exactly if these are in that range: a negative number is never passed on as it is.
pub build_exec_request-user :
    (shlex_split : Text → List Text) (e : InstanceExec)
    → let post = build_exec_request shlex_split e in
      (post.user < 2 ^ 32)
      × (post.group < 2 ^ 32)
      × ((e.user ≡ pos post.user) ↔ ((u : ℕ) × (e.user ≡ pos u) × (u < 2 ^ 32)))
      × ((e.group ≡ pos post.group) ↔ ((g : ℕ) × (e.group ≡ pos g) × (g < 2 ^ 32)))
unfolding build_exec_request
build_exec_request-user shlex_split e =
    let (user, user_iff) = uint32-Wide e.user in
    let (group, group_iff) = uint32-Wide e.group in (user, group, user_iff, group_iff)
