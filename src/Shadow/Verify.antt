-- ===== src/Shadow/Verify.antt =====
-- Which passwords pkg/util/shadow and the two password checks of server/user.go accept.
use ssh2incus.Base.{◌≡◌, ◌↔◌, [], ◌∷◌, arith}
use ssh2incus.Base.Result.{Result, ok, ◌>>=◌}
use ssh2incus.Base.Text.{Text}
use ssh2incus.Shadow.{
  read_scan, Entry, Files, lookup_file, found_in, new_from_string, read_shadow, read, shadow_path,
  Scan,
}
use ssh2incus.Shadow.Password.{
  Hashes, verify_password, verify_hash, verify_yescrypt, IsUnlocked, Accepts, hashed, matches,
  CryptAnswer, HashAnswer, crypt_result, yescrypt_result, check_host_shadow_password,
  check_shadow_password,
}
use ssh2incus.Base.Text.Laws.{text_eq_iff, text_eq_refl}

crypt_result_ok : (a : CryptAnswer) → crypt_result a ≡ ok tt → a ≡ matches
crypt_result_ok a h = ground arith

yescrypt_result_ok :
    (hash : Text) (a : HashAnswer) → yescrypt_result hash a ≡ ok tt → a ≡ hashed hash
yescrypt_result_ok hash (hashed h) e = ground (arith, text_eq_iff hash h)
yescrypt_result_ok hash a e = ground arith

module _ (hs : Hashes) (pass : Text) where
  verified :
      (hash : Text) → verify_hash hs pass hash ≡ ok tt → IsUnlocked hash × Accepts hs pass hash
  unfolding verify_hash verify_yescrypt
  verified [] h = cc
  verified (c ∷ []) h = ground arith
  verified (c ∷ d ∷ hash) h = ground (
    arith,
    crypt_result_ok (hs.crypt_verify (c ∷ d ∷ hash) pass),
    yescrypt_result_ok (c ∷ d ∷ hash) (hs.yescrypt_hash pass (c ∷ d ∷ hash)),
  )

  accepted :
      (hash : Text) → IsUnlocked hash → Accepts hs pass hash → verify_hash hs pass hash ≡ ok tt
  unfolding verify_hash verify_yescrypt
  accepted [] u a = absurd u
  accepted (c ∷ []) u a = absurd u
  accepted (c ∷ d ∷ hash) u a = ground (arith, text_eq_refl (c ∷ d ∷ hash))

-- A password is accepted exactly if the hash is neither empty, nor of one byte, nor locked by a
-- leading `*` or `!`, and the hash package that its second byte selects accepts the password. An
-- error or a panic of a package is a refusal.
pub verify_password_iff :
    (hs : Hashes) (pass : Text) (e : Entry)
    → (verify_password hs pass e ≡ ok tt) ↔ (IsUnlocked e.pass × Accepts hs pass e.pass)
unfolding verify_password
verify_password_iff hs pass e = (verified hs pass e.pass, λ h. accepted hs pass e.pass h.0 h.1)

module _ (files : Files) (hs : Hashes) (user password : Text) where
  host_checked :
      (r : Result Scan)
      → files shadow_path ≡ r
      → check_host_shadow_password files hs user password
        ≡ (lookup_file files user shadow_path >>= verify_password hs password)
  unfolding check_host_shadow_password lookup_file found_in read_shadow read read_scan
  host_checked r e = ground arith

-- Both password checks look the user up in a shadow file and verify the password against the entry
-- found. The check of the host reads /etc/shadow. The check of an instance reads the file of the host
-- whose path is the downloaded content, since NewFromString passes the content on as a path.
pub check_shadow_password-path :
    (files : Files) (hs : Hashes) (user password shadow_content : Text)
    → (check_host_shadow_password files hs user password
        ≡ (lookup_file files user shadow_path >>= verify_password hs password))
      × (check_shadow_password files hs user password shadow_content
          ≡ (lookup_file files user shadow_content >>= verify_password hs password))
unfolding check_host_shadow_password check_shadow_password new_from_string lookup_file found_in
    read_shadow
check_shadow_password-path files hs user password shadow_content = (ground arith, ground arith)
