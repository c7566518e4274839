-- ===== src/Incus/Users/Cached.antt =====
-- The cache of users gives what the instance itself would answer.
use ssh2incus.Base.{
  ◌≡◌, ◌≢◌, refl, sym, ap, ◌∙◌, ◌⊎◌, inl, inr, Option, none, some, List, ◌∷◌, ◌++◌, some_pair,
}
use ssh2incus.Base.Result.{Result, ok, err}
use ssh2incus.Base.Text.{Text, cut}
use ssh2incus.Base.Dict.{Dict, lookup, insert, delete, lookup-insert-some, lookup-delete-some}
use ssh2incus.Base.Text.Cut.{Lacks, cut-append}
use ssh2incus.Incus.{Server, ClientState, Call, use_project, default_project}
use ssh2incus.Incus.Project.{IsSynced, Switched, use_project-Switched}
use ssh2incus.Incus.Users.{
  InstanceUser, Receive, Found, panic, result, Exec, getent, user_of_outcome, ask_user,
  get_instance_user, instance_user_key, keep, cached_or, get_cached_instance_user,
}

-- Names of projects, instances and users hold no slash.
abbrev pub IsName : Text → Type 0
IsName s = Lacks b'/' s

pub instance_user_key_injective :
    (p i u q j v : Text)
    → IsName p
    → IsName i
    → IsName q
    → IsName j
    → instance_user_key p i u ≡ instance_user_key q j v
    → (p ≡ q) × (i ≡ j) × (u ≡ v)
unfolding instance_user_key
instance_user_key_injective p i u q j v hp hi hq hj e =
    let first : ◌≡◌ {A = Option (Text × Text)} (some (p, i ++ b'/' ∷ u)) (some (q, j ++ b'/' ∷ v)) =
      sym (cut-append b'/' p (i ++ b'/' ∷ u) hp)
      ∙ (ap (cut b'/') e ∙ cut-append b'/' q (j ++ b'/' ∷ v) hq) in
    let (pq, rest) = some_pair p q (i ++ b'/' ∷ u) (j ++ b'/' ∷ v) first in
    let second : ◌≡◌ {A = Option (Text × Text)} (some (i, u)) (some (j, v)) =
      sym (cut-append b'/' i u hi) ∙ (ap (cut b'/') rest ∙ cut-append b'/' j v hj) in
    let (ij, uv) = some_pair i j u v second in (pq, ij, uv)

ok-ne-err {ℓ} : {A : Type ℓ} (a : A) (m : Text) → ok a ≢ err m
ok-ne-err a m h = cc

err_injective : (m n : Text) → ◌≡◌ {A = Result (Unit {0})} (err m) (err n) → m ≡ n
err_injective m n h = cc

result_injective : (r s : Result InstanceUser) → result r ≡ result s → r ≡ s
result_injective r s h = cc

module _ (sv : Server) (named : (p n : Text) → sv.get_project p ≡ ok n → n ≡ p) (exec : Exec) where
  -- The answer of the instance, without a cache.
  pub direct : Text → Text → Text → Found
  direct p i u = let o = exec (default_project p) i (getent u) in user_of_outcome p i o o.error

  -- It, or the error about the project.
  abbrev pub Answers : Text → Text → Text → Found → Type 0
  Answers p i u f =
      (f ≡ direct p i u)
      ⊎ ((m : Text) × (f ≡ result (err m)) × (sv.get_project (default_project p) ≡ err m))

  -- What is cached under the key of a user is that user.
  abbrev pub Holds : Dict InstanceUser → Type 0
  Holds cache =
      (p i u : Text) (iu : InstanceUser)
      → IsName p
      → IsName i
      → lookup (instance_user_key p i u) cache ≡ some iu
      → direct p i u ≡ result (ok iu)

  Holds-delete : (k : Text) (cache : Dict InstanceUser) → Holds cache → Holds (delete k cache)
  Holds-delete k cache h p i u iu hp hi l =
      h p i u iu hp hi (lookup-delete-some k (instance_user_key p i u) iu cache l)

  Holds-insert :
      (q j v : Text) (iv : InstanceUser) (cache : Dict InstanceUser)
      → IsName q
      → IsName j
      → direct q j v ≡ result (ok iv)
      → Holds cache
      → Holds (insert (instance_user_key q j v) iv cache)
  Holds-insert q j v iv cache hq hj d h p i u iu hp hi l =
      elim (lookup-insert-some (instance_user_key q j v) (instance_user_key p i u) iv iu cache l) [
        | inl here ↦
            let (k, same) = here in
            let (qp, ji, vu) = instance_user_key_injective q j v p i u hq hj hp hi k in
            rw (sym qp, sym ji, sym vu) (d ∙ ap (λ x. result (ok x)) same)
        | inr there ↦ h p i u iu hp hi there
      ]

  ask_user-Answers :
      (p i u : Text) (t : Result (Unit {0}) × ClientState × List Call)
      → Switched sv named p t
      → Answers p i u (ask_user exec p i u t).0 × IsSynced (ask_user exec p i u t).1
  unfolding direct
  ask_user-Answers p i u (ok a, st, cs) (quiet, synced, inl (r, used)) =
      (inl (rw used refl), synced)
  ask_user-Answers p i u (ok a, st, cs) (quiet, synced, inr (m, r, q)) = absurd (ok-ne-err a m r)
  ask_user-Answers p i u (err m, st, cs) (quiet, synced, inl (r, used)) =
      absurd (ok-ne-err tt m (sym r))
  ask_user-Answers p i u (err m, st, cs) (quiet, synced, inr (m', r, q)) =
      (inr (m', ap (λ x. result (err x)) (err_injective m m' r), q), synced)

  get_instance_user-Answers :
      (receive : Receive) (p i u : Text) (st : ClientState)
      → ((f : Found) → receive f ≡ f)
      → IsSynced st
      → Answers p i u (get_instance_user sv exec receive p i u st).0
        × IsSynced (get_instance_user sv exec receive p i u st).1
  unfolding get_instance_user
  get_instance_user-Answers receive p i u st own h =
      let t = use_project sv p st in
      let (a, s) = ask_user-Answers p i u t (use_project-Switched sv named p st h) in
      (rw (own (ask_user exec p i u t).0) a, s)

  -- What a cached lookup leaves.
  abbrev pub IsSound : Text → Text → Text → Found × ClientState × Dict InstanceUser → Type 0
  IsSound p i u (f, st, cache) = Answers p i u f × IsSynced st × Holds cache

  keep-IsSound :
      (p i u : Text) (t : Found × ClientState) (cache : Dict InstanceUser)
      → IsName p
      → IsName i
      → Holds cache
      → Answers p i u t.0
      → IsSynced t.1
      → IsSound p i u (keep (instance_user_key p i u) t cache)
  keep-IsSound p i u (panic, st) cache hp hi h a s = (a, s, h)
  keep-IsSound p i u (result (err m), st) cache hp hi h a s = (a, s, h)
  keep-IsSound p i u (result (ok iu), st) cache hp hi h (inl d) s =
      (inl d, s, Holds-insert p i u iu cache hp hi (sym d) h)
  keep-IsSound p i u (result (ok iu), st) cache hp hi h (inr (m, e, q)) s =
      absurd (ok-ne-err iu m (result_injective _ _ e))

  cached_or-IsSound :
      (p i u : Text) (o : Option InstanceUser) (t : Found × ClientState) (st : ClientState)
      (cache : Dict InstanceUser)
      → lookup (instance_user_key p i u) cache ≡ o
      → IsName p
      → IsName i
      → Holds cache
      → IsSynced st
      → Answers p i u t.0
      → IsSynced t.1
      → IsSound p i u (cached_or o (instance_user_key p i u) t st cache)
  cached_or-IsSound p i u none t st cache l hp hi h s a s' = keep-IsSound p i u t cache hp hi h a s'
  cached_or-IsSound p i u (some iu) t st cache l hp hi h s a s' =
      (inl (sym (h p i u iu hp hi l)), s, h)

  -- Where the queue hands every caller its own result, the server is in the client's project, and the
  -- cache holds what the instances would answer, a cached lookup of a user answers as the instance of
  -- the named project does, or with the error about that project, as long as the instance's users stay
  -- the same; and the cache that it leaves, also when any key is deleted or expires, holds such answers
  -- again. The names of projects and instances have no slash.
  pub get_cached_instance_user-Answers :
      (receive : Receive) (p i u k : Text) (st : ClientState) (cache : Dict InstanceUser)
      → ((f : Found) → receive f ≡ f)
      → IsName p
      → IsName i
      → IsSynced st
      → Holds cache
      → let (f, st', cache') = get_cached_instance_user sv exec receive p i u st cache in
        Answers p i u f × IsSynced st' × Holds cache' × Holds (delete k cache')
  unfolding get_cached_instance_user
  get_cached_instance_user-Answers receive p i u k st cache own hp hi s h =
      let (a, s') = get_instance_user-Answers receive p i u st own s in
      let (b, s'', h') =
        cached_or-IsSound p i u (lookup (instance_user_key p i u) cache)
          (get_instance_user sv exec receive p i u st) st cache refl hp hi h s a s' in
      (b, s'', h', Holds-delete k _ h')
