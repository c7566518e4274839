-- ===== src/Shadow.antt =====
-- pkg/util/shadow/shadow.go: the shadow password database. A file is the answer of the file system to
-- its path, the two hash packages are parameters, and the clock is a number of seconds.
pub mod Lines
pub mod Password
pub mod Verify
pub mod Tests
use ssh2incus.Base.{
  ℕ, ◌≡◌, Bool, true, false, Option, none, some, List, [], ◌∷◌, ◌++◌, String, ltb, ◌==◌,
  if◌then◌else◌, ◌+◌, ◌/◌, length,
}
use ssh2incus.Base.Int.{ℤ, pos, negsuc}
use ssh2incus.Base.Result.{Result, ok, err, ◌>>=◌}
use ssh2incus.Base.Text.{Text, codes, text_eq, is_empty, starts_with_byte, split, atoi}

pub record Entry : Type 0 where
  pub username : Text
  pub pass : Text
  pub last_change : ℤ
  pub min_pass_age : ℤ
  pub max_pass_age : ℤ
  pub warn_period : ℤ
  pub inactivity_period : ℤ
  pub acct_expiry : ℤ
  pub flags : ℤ

abbrev invalid_field : Option ℤ → Result ℤ
invalid_field none = err (codes "read: invalid value")
invalid_field (some n) = ok n

-- One turn of the loop over the numbered fields.
unfoldable pub parse_field : Text → Result ℤ
unfolding atoi
parse_field part = if is_empty part then ok (negsuc 0) else invalid_field (atoi part)

-- The case len(parts) == 9, and every other case.
unfoldable pub entry_of_parts : List Text → Result Entry
unfolding parse_field
entry_of_parts (name ∷ pass ∷ a ∷ b ∷ c ∷ d ∷ e ∷ f ∷ g ∷ []) = do
  last_change ← parse_field a
  min_pass_age ← parse_field b
  max_pass_age ← parse_field c
  warn_period ← parse_field d
  inactivity_period ← parse_field e
  acct_expiry ← parse_field f
  flags ← parse_field g
  ok (record {
    username = name;
    pass = pass;
    last_change = last_change;
    min_pass_age = min_pass_age;
    max_pass_age = max_pass_age;
    warn_period = warn_period;
    inactivity_period = inactivity_period;
    acct_expiry = acct_expiry;
    flags = flags;
  })
entry_of_parts parts = err (codes "read: malformed entry")

unfoldable pub parse_entry : Text → Result Entry
unfolding entry_of_parts split
parse_entry line = entry_of_parts (split b':' line)

-- An opened file: its lines as bufio.Scanner yields them, and the error that ends the scan, if any.
pub record Scan : Type 0 where
  pub lines : List Text
  pub scan_error : Option Text

-- `(res, err)`: the entries read so far stand beside the error.
pub record ReadResult : Type 0 where
  pub entries : List Entry
  pub error : Option Text

abbrev pub append_entry : Entry → ReadResult → ReadResult
append_entry e r = record r { entries = e ∷ r.entries }

abbrev read_entry : Result Entry → ReadResult → ReadResult
read_entry (ok e) rest = append_entry e rest
read_entry (err m) rest = record { entries = []; error = some m }

unfoldable pub read_lines : List Text → Option Text → ReadResult
unfolding parse_entry
read_lines [] scan_error = record { entries = []; error = scan_error }
read_lines (line ∷ lines) scan_error = read_entry (parse_entry line) (read_lines lines scan_error)

-- os.Open
abbrev pub Files : Type 0
Files = Text → Result Scan

unfoldable pub read_scan : Result Scan → ReadResult
unfolding read_lines
read_scan (ok f) = read_lines f.lines f.scan_error
read_scan (err m) = record { entries = []; error = some m }

unfoldable pub read : Files → Text → ReadResult
unfolding read_scan
read files path = read_scan (files path)

abbrev pub err_no_such_user : Text
err_no_such_user = codes "shadow: user entry is not present in database"

abbrev pub err_wrong_password : Text
err_wrong_password = codes "shadow: wrong password"

-- Lookup on the entries of a database
unfoldable pub lookup_entry : Text → List Entry → Result Entry
lookup_entry name [] = err err_no_such_user
lookup_entry name (e ∷ es) = if text_eq e.username name then ok e else lookup_entry name es

-- A read that failed fails the lookup, whatever was read before the error.
unfoldable pub found_in : Text → ReadResult → Result Entry
unfolding lookup_entry
found_in name r = elim r.error [ none ↦ lookup_entry name r.entries | some m ↦ err m ]

-- LookupFile
unfoldable pub lookup_file : Files → Text → Text → Result Entry
unfolding read found_in
lookup_file files name path = found_in name (read files path)

pub record Shadow : Type 0 where
  pub shadow_file : Text
  pub entries : List Entry

abbrev pub shadow_path : Text
shadow_path = codes "/etc/shadow"

abbrev pub new_shadow : Shadow
new_shadow = record { shadow_file = shadow_path; entries = [] }

-- (*Shadow).Read keeps what was read, with or without an error.
unfoldable pub read_shadow : Files → Shadow → Option Text × Shadow
unfolding read
read_shadow files s =
    let r = read files s.shadow_file in (r.error, record s { entries = r.entries })

unfoldable pub read_shadow_file : Files → Text → Shadow → Option Text × Shadow
unfolding read_shadow
read_shadow_file files path s = read_shadow files (record s { shadow_file = path })

abbrev shadow_of : ReadResult → Result Shadow
shadow_of r = elim r.error [
  | none ↦ ok (record { shadow_file = shadow_path; entries = r.entries })
  | some m ↦ err m
]

-- NewFromString passes its argument to Read, which opens it as a path.
unfoldable pub new_from_string : Files → Text → Result Shadow
unfolding read
new_from_string files shadow_content = shadow_of (read files shadow_content)
