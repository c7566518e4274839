-- ===== src/Shadow/Lines.antt =====
-- Reading a shadow file line by line: the entries that the format of shadow(5) prints come back.
use ssh2incus.Base.{
  zero, suc, ◌≡◌, refl, ap, ◌∙◌, Option, none, some, List, [], ◌∷◌, ◌++◌, All, arith,
}
use ssh2incus.Base.Int.{ℤ, pos, negsuc}
use ssh2incus.Base.Result.{ok, err}
use ssh2incus.Base.Text.{Text, codes, join}
use mathlib.Core.List.{append-nil}
use ssh2incus.Base.Text.Cut.{Lacks}
use ssh2incus.Base.Text.Split.{split-join}
use ssh2incus.Base.Text.Decimal.{itoa, itoa-IsDigit, itoa-ne-nil, IsDigit}
use ssh2incus.Base.Text.Numbers.{show_int, IsInt, atoi-show_int}
use ssh2incus.Shadow.{
  read_scan, Entry, parse_field, entry_of_parts, parse_entry, read_lines, ReadResult, append_entry,
  lookup_file, read, found_in, Files, lookup_entry,
}

-- A field as shadow(5) writes it: empty for -1.
abbrev pub field_text : ℤ → Text
field_text (pos n) = show_int (pos n)
field_text (negsuc zero) = []
field_text (negsuc (suc n)) = show_int (negsuc (suc n))

abbrev pub entry_fields : Entry → List Text
entry_fields e =
    field_text e.last_change
    ∷ field_text e.min_pass_age
    ∷ field_text e.max_pass_age
    ∷ field_text e.warn_period
    ∷ field_text e.inactivity_period
    ∷ field_text e.acct_expiry
    ∷ field_text e.flags
    ∷ []

-- A line of shadow(5).
abbrev pub entry_text : Entry → Text
entry_text e = join (codes ":") (e.username ∷ e.pass ∷ entry_fields e)

pub record IsEntry (e : Entry) : Type 0 where
  pub username : Lacks b':' e.username
  pub pass : Lacks b':' e.pass
  pub last_change : IsInt e.last_change
  pub min_pass_age : IsInt e.min_pass_age
  pub max_pass_age : IsInt e.max_pass_age
  pub warn_period : IsInt e.warn_period
  pub inactivity_period : IsInt e.inactivity_period
  pub acct_expiry : IsInt e.acct_expiry
  pub flags : IsInt e.flags

digits-Lacks_colon : (s : Text) → All IsDigit s → Lacks b':' s
digits-Lacks_colon [] h = tt
digits-Lacks_colon (c ∷ s) (h, hs) = (omega arith, digits-Lacks_colon s hs)

field-Lacks : (n : ℤ) → Lacks b':' (field_text n)
unfolding show_int
field-Lacks (pos n) = digits-Lacks_colon (itoa n) (itoa-IsDigit n)
field-Lacks (negsuc zero) = tt
field-Lacks (negsuc (suc n)) =
    (omega arith, digits-Lacks_colon (itoa (suc (suc n))) (itoa-IsDigit (suc (suc n))))

parse_field-field_text : (n : ℤ) → IsInt n → parse_field (field_text n) ≡ ok n
unfolding parse_field show_int
parse_field-field_text (pos n) h =
    let (c, s, e) = itoa-ne-nil n in ground (arith, e, atoi-show_int (pos n) h)
parse_field-field_text (negsuc zero) h = refl
parse_field-field_text (negsuc (suc n)) h = ground (arith, atoi-show_int (negsuc (suc n)) h)

entry_of_parts-fields :
    (e : Entry) → IsEntry e → entry_of_parts (e.username ∷ e.pass ∷ entry_fields e) ≡ ok e
unfolding entry_of_parts
entry_of_parts-fields e v = rw (
  parse_field-field_text e.last_change v.last_change,
  parse_field-field_text e.min_pass_age v.min_pass_age,
  parse_field-field_text e.max_pass_age v.max_pass_age,
  parse_field-field_text e.warn_period v.warn_period,
  parse_field-field_text e.inactivity_period v.inactivity_period,
  parse_field-field_text e.acct_expiry v.acct_expiry,
  parse_field-field_text e.flags v.flags,
)

-- No part of a printed entry holds the separator.
fields-Lacks : (e : Entry) → IsEntry e → All (Lacks b':') (e.username ∷ e.pass ∷ entry_fields e)
fields-Lacks e v = ground (
  arith,
  v.username,
  v.pass,
  field-Lacks e.last_change,
  field-Lacks e.min_pass_age,
  field-Lacks e.max_pass_age,
  field-Lacks e.warn_period,
  field-Lacks e.inactivity_period,
  field-Lacks e.acct_expiry,
  field-Lacks e.flags,
)

parse_entry-entry_text : (e : Entry) → IsEntry e → parse_entry (entry_text e) ≡ ok e
unfolding parse_entry
parse_entry-entry_text e v =
    rw (split-join b':' e.username (e.pass ∷ entry_fields e) (fields-Lacks e v))
      (entry_of_parts-fields e v)

abbrev pub entry_lines : List Entry → List Text → List Text
entry_lines [] rest = rest
entry_lines (e ∷ es) rest = entry_text e ∷ entry_lines es rest

abbrev pub with_entries : List Entry → ReadResult → ReadResult
with_entries [] r = r
with_entries (e ∷ es) r = append_entry e (with_entries es r)

-- Lines written in the format of shadow(5), for names and hashes without `:` and numbers of an `int`,
-- are read back as the same entries in the same order, and reading goes on with the lines below them.
pub read_lines-entry_lines :
    (es : List Entry) (rest : List Text) (scan_error : Option Text)
    → All IsEntry es
    → read_lines (entry_lines es rest) scan_error ≡ with_entries es (read_lines rest scan_error)
unfolding read_lines
read_lines-entry_lines [] rest scan_error h = refl
read_lines-entry_lines (e ∷ es) rest scan_error (h, hs) =
    rw (parse_entry-entry_text e h)
      (ap (append_entry e) (read_lines-entry_lines es rest scan_error hs))

with_entries-error : (es : List Entry) (r : ReadResult) → (with_entries es r).error ≡ r.error
with_entries-error [] r = refl
with_entries-error (e ∷ es) r = with_entries-error es r

with_entries-entries :
    (es : List Entry) (r : ReadResult) → (with_entries es r).entries ≡ es ++ r.entries
with_entries-entries [] r = refl
with_entries-entries (e ∷ es) r = ap (λ l. e ∷ l) (with_entries-entries es r)

found_in-ok :
    (name : Text) (r : ReadResult) → r.error ≡ none → found_in name r ≡ lookup_entry name r.entries
unfolding found_in
found_in-ok name r e = rw e

found_in-error : (name m : Text) (r : ReadResult) → r.error ≡ some m → found_in name r ≡ err m
unfolding found_in
found_in-error name m r e = rw e

module _ (files : Files) (path name : Text) (es : List Entry) (h : All IsEntry es) where
  -- In a file of well-formed lines a lookup finds the first entry of that name.
  pub lookup_file-entry_lines :
      files path ≡ ok (record { lines = entry_lines es []; scan_error = none })
      → lookup_file files name path ≡ lookup_entry name es
  unfolding lookup_file read read_scan found_in read_lines
  lookup_file-entry_lines e =
      let empty : ReadResult = record { entries = []; error = none } in
      rw (e, read_lines-entry_lines es [] none h)
        (found_in-ok name (with_entries es empty) (with_entries-error es empty)
          ∙ ap (lookup_entry name) (with_entries-entries es empty ∙ append-nil es))

  -- One malformed line below well-formed ones makes the lookup of every name fail with the error of
  -- that line, also of the names above it.
  pub lookup_file-malformed :
      (bad : Text) (rest : List Text) (m : Text) (scan_error : Option Text)
      → parse_entry bad ≡ err m
      → files path ≡ ok (record { lines = entry_lines es (bad ∷ rest); scan_error = scan_error })
      → lookup_file files name path ≡ err m
  unfolding lookup_file read read_scan found_in read_lines
  lookup_file-malformed bad rest m scan_error b e =
      rw (e, read_lines-entry_lines es (bad ∷ rest) scan_error h)
        (found_in-error name m _ (with_entries-error es _ ∙ rw b))
