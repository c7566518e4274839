-- ===== src/Incus/Files/Cached.antt =====
-- The cache of files agrees with the instances.
use ssh2incus.Base.{
  ◌≡◌, refl, sym, ap, ◌∙◌, ◌↔◌, ◌⊎◌, inl, inr, Bool, true, false, ◌&&◌, ◌||◌, Option, none, some,
  List, [], ◌∷◌, ◌++◌, arith, some_pair,
}
use ssh2incus.Base.Int.{ℤ, pos, negsuc}
use ssh2incus.Base.Text.{Text, is_empty, cut, split}
use ssh2incus.Base.Text.Laws.{text_eq_refl, eq_of_text_eq}
use ssh2incus.Base.Dict.{Dict, lookup, insert, lookup-insert-some}
use ssh2incus.Buffer.{scan_lines}
use ssh2incus.Base.Text.Cut.{Lacks, cut-append}
use ssh2incus.Incus.{default_project}
use ssh2incus.Incus.Users.{Exec, instance_user_key}
use ssh2incus.Incus.Users.Cached.{IsName, instance_user_key_injective}
use ssh2incus.Incus.Files.{
  FileExistsParams, file_hash, is_zero, is_sum, first_sum, test_cmd, md5_cmd, file_there, remember,
  cached_or, cached, file_exists,
}

-- The instance has the file, with the checksum where one is given.
abbrev pub HasFile : Exec → Text → Text → Text → Text → Type 0
HasFile exec used instance path md5sum =
    let tested = exec used instance (test_cmd path) in
    let summed = exec used instance (md5_cmd path) in
    (tested.ret ≡ pos 0)
    × ((md5sum ≡ [])
        ⊎ ((summed.ret ≡ pos 0)
            × ((line : Text) × (lines : List Text) × (name : Text) × (more : List Text)
                × (scan_lines (tested.stdout ++ summed.stdout) ≡ line ∷ lines)
                × (split b' ' line ≡ md5sum ∷ name ∷ more))))

is_zero_iff : (n : ℤ) → (is_zero n ≡ true) ↔ (n ≡ pos 0)
is_zero_iff (pos n) = ground arith
is_zero_iff (negsuc n) = ((λ e. cc), (λ e. cc))

is_empty_iff : (s : Text) → (is_empty s ≡ true) ↔ (s ≡ [])
is_empty_iff [] = ((λ e. refl), (λ e. refl))
is_empty_iff (c ∷ s) = ((λ e. cc), (λ e. cc))

is_sum_iff :
    (m : Text) (words : List Text)
    → (is_sum m words ≡ true) ↔ ((name : Text) × (more : List Text) × (words ≡ m ∷ name ∷ more))
is_sum_iff m [] = ((λ e. cc), (λ h. let (name, more, e) = h in cc))
is_sum_iff m (a ∷ []) = ((λ e. cc), (λ h. let (name, more, e) = h in cc))
is_sum_iff m (a ∷ b ∷ ws) = (
  (λ e. (b, ws, ap (λ x. x ∷ b ∷ ws) (sym (eq_of_text_eq m a e)))),
  (λ h. let (name, more, e) = h in rw (head_eq a m (b ∷ ws) (name ∷ more) e) (text_eq_refl m)),
)
  where
    head_eq : (a m : Text) (s t : List Text) → a ∷ s ≡ m ∷ t → a ≡ m
    head_eq a m s t e = cc

first_sum_iff :
    (m : Text) (read : List Text)
    → (first_sum m read ≡ true) ↔ (
        (line : Text) × (lines : List Text) × (name : Text) × (more : List Text) × (read
          ≡ line ∷ lines)
        × (split b' ' line ≡ m ∷ name ∷ more))
first_sum_iff m [] = ((λ e. cc), (λ h. let (line, lines, name, more, e, w) = h in cc))
first_sum_iff m (l ∷ ls) = (
  (λ e. let (name, more, w) = (is_sum_iff m (split b' ' l)).0 e in (l, ls, name, more, refl, w)),
  (λ h.
      let (line, lines, name, more, e, w) = h in
      (is_sum_iff m (split b' ' l)).1
        (name, more, ap (split b' ') (head_eq l line ls lines e) ∙ w)),
)
  where
    head_eq : (a m : Text) (s t : List Text) → a ∷ s ≡ m ∷ t → a ≡ m
    head_eq a m s t e = cc

and_iff : (a b : Bool) → (a && b ≡ true) ↔ ((a ≡ true) × (b ≡ true))
and_iff a b = ground arith

or_iff : (a b : Bool) → (a || b ≡ true) ↔ ((a ≡ true) ⊎ (b ≡ true))
or_iff a b = ground arith

file_there_iff :
    (exec : Exec) (used : Text) (p : FileExistsParams)
    → (file_there exec used p ≡ true) ↔ HasFile exec used p.instance p.path p.md5sum
unfolding file_there
file_there_iff exec used p =
    let tested = exec used p.instance (test_cmd p.path) in
    let summed = exec used p.instance (md5_cmd p.path) in
    let read = scan_lines (tested.stdout ++ summed.stdout) in
    let (both, of_both) =
      and_iff (is_zero tested.ret)
        (is_empty p.md5sum || (is_zero summed.ret && first_sum p.md5sum read)) in
    let (either, of_either) =
      or_iff (is_empty p.md5sum) (is_zero summed.ret && first_sum p.md5sum read) in
    let (sums, of_sums) = and_iff (is_zero summed.ret) (first_sum p.md5sum read) in
    (
      (λ e.
          let (t, rest) = both e in
          (
            (is_zero_iff tested.ret).0 t,
            elim (either rest) [
              | inl unsaid ↦ inl ((is_empty_iff p.md5sum).0 unsaid)
              | inr some_sum ↦ inr (
                (is_zero_iff summed.ret).0 (sums some_sum).0,
                (first_sum_iff p.md5sum read).0 (sums some_sum).1,
              )
            ],
          )),
      (λ h.
          let (t, rest) = h in
          of_both (
            (is_zero_iff tested.ret).1 t,
            of_either (elim rest [
              | inl unsaid ↦ inl ((is_empty_iff p.md5sum).1 unsaid)
              | inr some_sum ↦ inr (
                  of_sums (
                    (is_zero_iff summed.ret).1 some_sum.0,
                    (first_sum_iff p.md5sum read).1 some_sum.1,
                  ))
            ]),
          )),
    )

-- Paths and checksums hold no colon.
abbrev pub IsNamed : Text → Text → Text → Text → Type 0
IsNamed project instance path md5sum =
    IsName project × IsName instance × Lacks b':' path × Lacks b':' md5sum

file_hash_injective :
    (p i path m q j path' m' : Text)
    → IsNamed p i path m
    → IsNamed q j path' m'
    → file_hash p i path m ≡ file_hash q j path' m'
    → (p ≡ q) × (i ≡ j) × (path ≡ path') × (m ≡ m')
unfolding file_hash instance_user_key
file_hash_injective p i path m q j path' m' (hp, hi, hpath, hm) (hq, hj, hpath', hm') e =
    let (pq, ij, rest) =
      instance_user_key_injective p i (path ++ b':' ∷ m) q j (path' ++ b':' ∷ m') hp hi hq hj e in
    let both : ◌≡◌ {A = Option (Text × Text)} (some (path, m)) (some (path', m')) =
      sym (cut-append b':' path m hpath) ∙ (ap (cut b':') rest ∙ cut-append b':' path' m' hpath') in
    let (same, sums) = some_pair path path' m m' both in (pq, ij, same, sums)

module _ (exec : Exec) where
  -- What is cached under the hash of a file is that the instance has it.
  abbrev pub Holds : Dict Bool → Type 0
  Holds cache =
      (p i path m : Text) (b : Bool)
      → IsNamed p i path m
      → lookup (file_hash p i path m) cache ≡ some b
      → (b ≡ true) × HasFile exec (default_project p) i path m

  Holds-insert :
      (q j path' m' : Text) (cache : Dict Bool)
      → IsNamed q j path' m'
      → HasFile exec (default_project q) j path' m'
      → Holds cache
      → Holds (insert (file_hash q j path' m') true cache)
  Holds-insert q j path' m' cache named' has h p i path m b named l =
      elim (lookup-insert-some (file_hash q j path' m') (file_hash p i path m) true b cache l) [
        | inl here ↦
            let (k, same) = here in
            let (qp, ji, paths, sums) =
              file_hash_injective q j path' m' p i path m named' named k in
            rw (sym qp, sym ji, sym paths, sym sums) (sym same, has)
        | inr there ↦ h p i path m b named there
      ]

  -- What a question leaves: the answer, and the cache.
  abbrev pub IsSound : FileExistsParams → Bool × Dict Bool → Type 0
  IsSound p (b, cache) =
      ((b ≡ true) ↔ HasFile exec (default_project p.project) p.instance p.path p.md5sum)
      × Holds cache

  remember-IsSound :
      (p : FileExistsParams) (should : Bool) (there : Bool) (cache : Dict Bool)
      → IsNamed p.project p.instance p.path p.md5sum
      → Holds cache
      → ((there ≡ true) ↔ HasFile exec (default_project p.project) p.instance p.path p.md5sum)
      → IsSound p (remember should (file_hash p.project p.instance p.path p.md5sum) there cache)
  remember-IsSound p false there cache named h iff = (iff, h)
  remember-IsSound p true false cache named h iff = (iff, h)
  remember-IsSound p true true cache named h iff =
      (iff, Holds-insert p.project p.instance p.path p.md5sum cache named (iff.0 refl) h)

  cached_or-IsSound :
      (p : FileExistsParams) (o : Option Bool) (asked : Bool × Dict Bool) (cache : Dict Bool)
      → ((b : Bool)
          → o ≡ some b
          → (b ≡ true) × HasFile exec (default_project p.project) p.instance p.path p.md5sum)
      → Holds cache
      → IsSound p asked
      → IsSound p (cached_or o asked cache)
  cached_or-IsSound p none asked cache hit h a = a
  cached_or-IsSound p (some b) asked cache hit h a =
      let (yes_there, has) = hit b refl in (((λ e. has), (λ g. yes_there)), h)

  -- With a client in the project of the question, FileExists answers whether the instance has the file,
  -- with the checksum where one is given, also from the cache, as long as the instance's files stay the
  -- same; and the cache then holds the truth again.
  pub file_exists-IsSound :
      (p : FileExistsParams) (cache : Dict Bool)
      → IsNamed p.project p.instance p.path p.md5sum
      → Holds cache
      → IsSound p (file_exists exec (default_project p.project) p cache)
  unfolding file_exists cached
  file_exists-IsSound p cache named h =
      let hash = file_hash p.project p.instance p.path p.md5sum in
      cached_or-IsSound p (cached p.should_cache hash cache) _ cache (found p.should_cache) h (
        remember-IsSound p p.should_cache (file_there exec (default_project p.project) p) cache
          named h (file_there_iff exec (default_project p.project) p))
    where
      found :
          (should : Bool) (b : Bool)
          → cached should (file_hash p.project p.instance p.path p.md5sum) cache ≡ some b
          → (b ≡ true) × HasFile exec (default_project p.project) p.instance p.path p.md5sum
      found true b e = h p.project p.instance p.path p.md5sum b named e
      found false b e = cc
