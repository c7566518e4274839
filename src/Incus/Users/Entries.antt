-- ===== src/Incus/Users/Entries.antt =====
-- What an entry of passwd(5) gives.
use ssh2incus.Base.{◌≡◌, refl, ap, ◌∙◌, ◌↔◌, none, List, [], ◌∷◌, ◌<◌, length, All, arith}
use ssh2incus.Base.Int.{ℤ, pos}
use ssh2incus.Base.Result.{ok}
use ssh2incus.Base.Text.{Text, codes, split, join, atoi_value}
use ssh2incus.Base.Text.Cut.{Lacks}
use ssh2incus.Base.Text.Split.{split-join}
use ssh2incus.Buffer.{scan_lines}
use ssh2incus.Incus.Exec.{Outcome}
use ssh2incus.Incus.Users.{InstanceUser, panic, result, user_of_parts, user_of_outcome}

abbrev pub fields : InstanceUser → Text → Text → Text → Text → List Text
fields u pass uid gid gecos = u.user ∷ pass ∷ uid ∷ gid ∷ gecos ∷ u.dir ∷ u.shell ∷ []

-- The outcome of a getent that ends well with the exit code 0.
abbrev pub Printed : Outcome → Text → Type 0
Printed o ent =
    (o.ret ≡ pos 0) × (o.error ≡ none) × ((more : List Text) × (scan_lines o.stdout ≡ ent ∷ more))

same_numbers :
    (u : InstanceUser) (uid gid : ℤ)
    → u.uid ≡ uid
    → u.gid ≡ gid
    → result (ok (record u { uid = uid; gid = gid })) ≡ result (ok u)
same_numbers u uid gid a b = ground arith

first_entry-fields :
    (u : InstanceUser) (pass uid gid gecos : Text)
    → All (Lacks b':') (fields u pass uid gid gecos)
    → u.ent ≡ join (codes ":") (fields u pass uid gid gecos)
    → u.uid ≡ atoi_value uid
    → u.gid ≡ atoi_value gid
    → user_of_parts u.project u.instance u.ent (split b':' u.ent) ≡ result (ok u)
unfolding user_of_parts
first_entry-fields u pass uid gid gecos lacks e a b =
    ap (λ t. user_of_parts u.project u.instance u.ent (split b':' t)) e
    ∙ (ap (user_of_parts u.project u.instance u.ent) (split-join b':' u.user _ lacks)
        ∙ same_numbers u (atoi_value uid) (atoi_value gid) a b)

-- At most six fields.
abbrev pub IsShort : List Text → Type 0
IsShort parts = length parts < 7

user_of_parts-panic :
    (project instance ent : Text) (parts : List Text)
    → (user_of_parts project instance ent parts ≡ panic) ↔ IsShort parts
unfolding user_of_parts
user_of_parts-panic project instance ent [] = ground arith
user_of_parts-panic project instance ent (a ∷ []) = ground arith
user_of_parts-panic project instance ent (a ∷ b ∷ []) = ground arith
user_of_parts-panic project instance ent (a ∷ b ∷ c ∷ []) = ground arith
user_of_parts-panic project instance ent (a ∷ b ∷ c ∷ d ∷ []) = ground arith
user_of_parts-panic project instance ent (a ∷ b ∷ c ∷ d ∷ e ∷ []) = ground arith
user_of_parts-panic project instance ent (a ∷ b ∷ c ∷ d ∷ e ∷ f ∷ []) = ground arith
user_of_parts-panic project instance ent (a ∷ b ∷ c ∷ d ∷ e ∷ f ∷ g ∷ more) = ground arith

user_of_outcome-Printed :
    (project instance ent : Text) (o : Outcome)
    → Printed o ent
    → user_of_outcome project instance o o.error
      ≡ user_of_parts project instance ent (split b':' ent)
user_of_outcome-Printed project instance ent o (ret, none_said, (more, lines)) =
    rw (none_said, ret, lines) refl

-- An entry in the format of passwd(5) gives the user whose fields it prints, with the numbers that
-- strconv.Atoi reads in it.
pub user_of_outcome-fields :
    (u : InstanceUser) (pass uid gid gecos : Text) (o : Outcome)
    → All (Lacks b':') (fields u pass uid gid gecos)
    → u.ent ≡ join (codes ":") (fields u pass uid gid gecos)
    → u.uid ≡ atoi_value uid
    → u.gid ≡ atoi_value gid
    → Printed o u.ent
    → user_of_outcome u.project u.instance o o.error ≡ result (ok u)
user_of_outcome-fields u pass uid gid gecos o lacks e a b p =
    user_of_outcome-Printed u.project u.instance u.ent o p
    ∙ first_entry-fields u pass uid gid gecos lacks e a b

-- The lookup of a user panics exactly if the first line that getent prints has fewer than seven
-- fields. What getent prints is up to the instance.
pub user_of_outcome-panic :
    (project instance ent : Text) (o : Outcome)
    → Printed o ent
    → (user_of_outcome project instance o o.error ≡ panic) ↔ IsShort (split b':' ent)
user_of_outcome-panic project instance ent o p =
    rw (user_of_outcome-Printed project instance ent o p)
      (user_of_parts-panic project instance ent (split b':' ent))
