-- ===== src/Shadow/Password.antt =====
-- (*Entry).VerifyPassword, the validity of accounts, and which passwords are accepted. The packages
use ssh2incus.Base.{
  ℕ, suc, ◌≡◌, ◌≢◌, Bool, true, false, ◌||◌, Option, none, some, [], ◌∷◌, ltb, ◌==◌, if◌then◌else◌,
  ◌+◌, ◌-◌, ◌/◌,
}
use ssh2incus.Base.Int.{ℤ, pos, negsuc}
use ssh2incus.Base.Result.{Result, ok, err, ◌>>=◌}
use ssh2incus.Base.Text.{Text, codes, text_eq, is_empty, starts_with_byte}
use ssh2incus.Shadow.{
  Result, Text, read_shadow, ℤ, err, ok, text_eq, Shadow, codes, pos, is_empty, negsuc,
  starts_with_byte, ◌>>=◌, new_shadow, Entry, err_wrong_password, Files, new_from_string,
  lookup_entry,
}

-- github.com/GehirnInc/crypt and pkg/yescrypt are parameters.

-- What (crypt.Crypter).Verify does with a hash and a password. NewFromHash panics on an unknown hash.
pub data CryptAnswer : Type 0 where
  matches : CryptAnswer
  key_mismatch : CryptAnswer
  crypt_error : Text → CryptAnswer
  crypt_panic : Text → CryptAnswer

pub data HashAnswer : Type 0 where
  hashed : Text → HashAnswer
  hash_error : Text → HashAnswer
  hash_panic : Text → HashAnswer

pub record Hashes : Type 0 where
  pub crypt_verify : Text → Text → CryptAnswer
  pub yescrypt_hash : Text → Text → HashAnswer

-- A panic is recovered into an error.
abbrev pub crypt_result : CryptAnswer → Result (Unit {0})
crypt_result matches = ok tt
crypt_result key_mismatch = err err_wrong_password
crypt_result (crypt_error m) = err m
crypt_result (crypt_panic m) = err m

abbrev pub yescrypt_result : Text → HashAnswer → Result (Unit {0})
yescrypt_result hash (hashed h) = if text_eq hash h then ok tt else err err_wrong_password
yescrypt_result hash (hash_error m) = err m
yescrypt_result hash (hash_panic m) = err m

unfoldable pub verify_yescrypt : Hashes → Text → Text → Result (Unit {0})
verify_yescrypt hs pass hash = yescrypt_result hash (hs.yescrypt_hash pass hash)

unfoldable pub verify_hash : Hashes → Text → Text → Result (Unit {0})
unfolding verify_yescrypt
verify_hash hs pass [] = err (codes "shadow: null password")
verify_hash hs pass (c ∷ hash) =
    if c == b'*'
    then err (codes "shadow: password auth disabled")
    else if c == b'!'
    then err (codes "shadow: locked password")
    else if is_empty hash
    then err (codes "shadow: password not set")
    else if starts_with_byte b'y' hash
    then verify_yescrypt hs pass (c ∷ hash)
    else crypt_result (hs.crypt_verify (c ∷ hash) pass)

unfoldable pub verify_password : Hashes → Text → Entry → Result (Unit {0})
unfolding verify_hash
verify_password hs pass e = verify_hash hs pass e.pass

-- server/user.go, checkHostShadowPassword and checkShadowPassword
unfoldable pub check_host_shadow_password : Files → Hashes → Text → Text → Result (Unit {0})
unfolding verify_password read_shadow lookup_entry
check_host_shadow_password files hs user password = checked (read_shadow files new_shadow)
  where
    checked : Option Text × Shadow → Result (Unit {0})
    checked (some m, s) = err m
    checked (none, s) = lookup_entry user s.entries >>= verify_password hs password

unfoldable pub check_shadow_password : Files → Hashes → Text → Text → Text → Result (Unit {0})
unfolding verify_password new_from_string lookup_entry
check_shadow_password files hs user password shadow_content = do
  s ← new_from_string files shadow_content
  e ← lookup_entry user s.entries
  verify_password hs password e

-- The number of days since 1970: time.Now().Unix() / secsInDay
abbrev pub days : ℕ → ℕ
days seconds = seconds / 86400

-- nowDays < n
abbrev before : ℕ → ℤ → Bool
before now (pos n) = ltb now n
before now (negsuc n) = false

abbrev pub is_minus_one : ℤ → Bool
is_minus_one (pos n) = false
is_minus_one (negsuc n) = n == 0

infixl 60 ◌+ℤ◌
abbrev pub ◌+ℤ◌ : ℤ → ℤ → ℤ
(pos a) +ℤ (pos b) = pos (a + b)
(pos a) +ℤ (negsuc b) = if ltb b a then pos (a - suc b) else negsuc (b - a)
(negsuc a) +ℤ (pos b) = if ltb a b then pos (b - suc a) else negsuc (a - b)
(negsuc a) +ℤ (negsuc b) = negsuc (suc (a + b))

unfoldable pub is_account_valid : ℕ → Entry → Bool
is_account_valid seconds e =
    if is_minus_one e.acct_expiry then true else before (days seconds) e.acct_expiry

unfoldable pub is_password_valid : ℕ → Entry → Bool
is_password_valid seconds e =
    if is_minus_one e.last_change || is_minus_one e.max_pass_age || is_minus_one e.inactivity_period
    then true
    else before (days seconds) ((e.last_change +ℤ e.max_pass_age) +ℤ e.inactivity_period)

-- A hash that is neither empty nor locked, and has a second byte.
abbrev pub IsUnlocked : Text → Type 0
IsUnlocked [] = ⊥
IsUnlocked (c ∷ []) = ⊥
IsUnlocked (c ∷ d ∷ hash) = (c ≢ b'*') × (c ≢ b'!')

-- The package that the second byte of the hash selects accepts the password.
abbrev pub Accepts : Hashes → Text → Text → Type 0
Accepts hs pass [] = ⊥
Accepts hs pass (c ∷ []) = ⊥
Accepts hs pass (c ∷ d ∷ hash) =
    if d == b'y'
    then hs.yescrypt_hash pass (c ∷ d ∷ hash) ≡ hashed (c ∷ d ∷ hash)
    else hs.crypt_verify (c ∷ d ∷ hash) pass ≡ matches
