-- ===== src/Shadow/Tests.antt =====
-- Entries, files and hashes that the theorems on the shadow database apply to.
use ssh2incus.Base.{◌≡◌, refl, none, [], ◌∷◌, arith}
use ssh2incus.Base.Int.{pos, negsuc}
use ssh2incus.Base.Result.{ok, err}
use ssh2incus.Base.Text.{codes, split}
use ssh2incus.Shadow.{Entry, Files, Scan, parse_entry, read_lines}
use ssh2incus.Shadow.Password.{Hashes, verify_password, matches, hash_error}
use ssh2incus.Shadow.Lines.{IsEntry, entry_lines, with_entries, read_lines-entry_lines}
use ssh2incus.Shadow.Verify.{verify_password_iff}

-- bob:$6$x:19000:0:99999:7:::
abbrev pub bob_entry : Entry
bob_entry = record {
  username = codes "bob";
  pass = codes "$6$x";
  last_change = pos 19000;
  min_pass_age = pos 0;
  max_pass_age = pos 99999;
  warn_period = pos 7;
  inactivity_period = negsuc 0;
  acct_expiry = negsuc 0;
  flags = negsuc 0;
}

bob_entry-IsEntry : IsEntry bob_entry
bob_entry-IsEntry = record {
  username = omega arith;
  pass = omega arith;
  last_change = omega arith;
  min_pass_age = omega arith;
  max_pass_age = omega arith;
  warn_period = omega arith;
  inactivity_period = omega arith;
  acct_expiry = omega arith;
  flags = omega arith;
}

-- Every hash that is no yescrypt hash matches.
abbrev pub any_hashes : Hashes
any_hashes = record { crypt_verify = λ h p. matches; yescrypt_hash = λ p h. hash_error [] }

abbrev bad_file : Scan
bad_file = record { lines = entry_lines (bob_entry ∷ []) (codes "x" ∷ []); scan_error = none }

abbrev bad_files : Files
bad_files = λ path. ok bad_file

verify_password_iff_example : verify_password any_hashes (codes "secret") bob_entry ≡ ok tt
verify_password_iff_example =
    (verify_password_iff any_hashes (codes "secret") bob_entry).1 ((omega arith, omega arith), refl)

read_lines-entry_lines_example :
    read_lines (entry_lines (bob_entry ∷ []) (codes "x" ∷ [])) none
    ≡ with_entries (bob_entry ∷ []) (read_lines (codes "x" ∷ []) none)
read_lines-entry_lines_example =
    read_lines-entry_lines (bob_entry ∷ []) (codes "x" ∷ []) none (bob_entry-IsEntry, tt)

malformed_line : parse_entry (codes "x") ≡ err (codes "read: malformed entry")
unfolding parse_entry split
malformed_line = refl
