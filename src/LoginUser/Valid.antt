-- ===== src/LoginUser/Valid.antt =====
-- server/user.go, IsValid and IsCommand. The caches of valid and of failed logins are values of the
-- package pkg/cache, a copy of go-cache: here an interface with the calls that the program makes.
-- Logging is left out.
pub mod Laws
use ssh2incus.Base.{
  ℕ, ◌≡◌, Bool, true, false, not, ◌&&◌, ◌||◌, Option, none, some, [], ◌∷◌, if◌then◌else◌,
}
use ssh2incus.Base.Result.{Result, ok, err}
use ssh2incus.Base.Text.{Text, codes, text_eq}
use ssh2incus.LoginUser.{Login, is_command}
use ssh2incus.LoginUser.Print.{hash}

-- What of go-cache the program uses on a set of keys: a key can be looked up, set with the default
-- expiration, and deleted. Time passes between calls, so that a key may be gone on its own.
pub record KeyCache : Type 1 where
  pub Cache : Type 0
  pub has : Text → Cache → Bool
  pub set_default : Text → Cache → Cache
  pub delete : Text → Cache → Cache
  pub has-set_default : (k : Text) (c : Cache) → has k (set_default k c) ≡ true
  pub has-delete : (k : Text) (c : Cache) → has k (delete k c) ≡ false

-- pkg/incus/user.go
pub record InstanceUser : Type 0 where
  pub project : Text
  pub instance_name : Text
  pub user : Text
  pub uid : ℕ
  pub gid : ℕ
  pub dir : Text
  pub shell : Text
  pub ent : Text

-- The answers of the Incus client to this login.
pub record Client : Type 0 where
  pub connect : Result (Unit {0})
  pub get_cached_instance_user : Text → Text → Text → Result (Option InstanceUser)

-- A nil receiver makes the first line of IsValid panic.
pub data Verdict : Type 0 where
  panic : Verdict
  verdict : Bool → Verdict

-- err != nil || iu == nil
abbrev pub is_user : Result (Option InstanceUser) → Bool
is_user (ok none) = false
is_user (ok (some iu)) = true
is_user (err e) = false

abbrev pub is_ok {ℓ} : {A : Type ℓ} → Result A → Bool
is_ok (ok a) = true
is_ok (err e) = false

unfoldable pub is_known_command : Text → Bool
is_known_command c =
    text_eq c (codes "shell") || text_eq c (codes "explain") || text_eq c (codes "remove")

module _ (k : KeyCache) where
  open k use {Cache, has, set_default, delete}

  pub record Caches : Type 0 where
    pub valid : Cache
    pub failed : Cache

  lookup_user : Client → Login → Caches → Bool × Caches
  lookup_user client lu c =
      if is_user (client.get_cached_instance_user lu.project lu.instance_name lu.instance_user)
      then (
        true,
        record { failed = delete (hash lu) c.failed; valid = set_default (hash lu) c.valid },
      )
      else (false, record c { failed = set_default (hash lu) c.failed })

  -- The branches of IsValid below the test for commands.
  unfoldable pub check_instance : Client → Login → Caches → Bool × Caches
  unfolding lookup_user
  check_instance client lu c =
      if has (hash lu) c.failed
      then (false, c)
      else if has (hash lu) c.valid
      then (true, c)
      else if not (is_ok client.connect)
      then (false, c)
      else if lu.create_instance
      then (true, c)
      else lookup_user client lu c

  unfoldable pub check_login : Client → Login → Caches → Bool × Caches
  unfolding check_instance is_command is_known_command
  check_login client lu c =
      if is_command lu then (is_known_command lu.command, c) else check_instance client lu c

  unfoldable pub is_valid : Client → Option Login → Caches → Verdict × Caches
  unfolding check_login
  is_valid client none c = (panic, c)
  is_valid client (some lu) c = let (b, c') = check_login client lu c in (verdict b, c')
