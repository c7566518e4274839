-- ===== src/Incus/OsInfo/Release.antt =====
-- The file that os-release(5) describes, and what is read of it.
use ssh2incus.Base.{
  ℕ, ◌≡◌, ◌≢◌, refl, ap, ◌∙◌, ◌⊎◌, inl, inr, Bool, true, false, Option, none, some, List, [], ◌∷◌,
  ◌++◌, ◌==◌, if◌then◌else◌, All, arith, Bool-cases,
}
use ssh2incus.Base.Result.{ok}
use ssh2incus.Base.Text.{Text, codes, text_eq, is_empty, starts_with_byte}
use ssh2incus.Base.Text.Space.{trim_space}
use ssh2incus.Base.Dict.{Dict, lookup, insert, lookup-insert, given_or}
use ssh2incus.Base.Text.Cut.{Lacks, cut-append}
use ssh2incus.Buffer.{BytesBuffer, get_lines}
use ssh2incus.Incus.OsInfo.{
  trim_left, trim_right, trim_byte, skipped, pair, line_of, read_lines, Files, get_os_info,
}

-- A line: a comment, or an assignment of a value in double quotes.
pub data Written : Type 0 where
  comment : Text → Written
  assign : (key value : Text) → Written

abbrev pub text_of : Written → Text
text_of (comment c) = b'#' ∷ c
text_of (assign k v) = k ++ b'=' ∷ b'"' ∷ (v ++ b'"' ∷ [])

-- No white space around a line or its key; a key that is not empty, holds no `=` and does not begin with
-- `#`; and a value without double quotes at its ends.
abbrev pub IsWritten : Written → Type 0
IsWritten (comment c) = trim_space (b'#' ∷ c) ≡ b'#' ∷ c
IsWritten (assign k v) =
    (trim_space (text_of (assign k v)) ≡ text_of (assign k v))
    × (trim_space k ≡ k)
    × (k ≢ [])
    × Lacks b'=' k
    × (starts_with_byte b'#' k ≡ false)
    × (trim_byte b'"' v ≡ v)

unfoldable pub last_value : Text → List Written → Option Text
unfolding text_eq
last_value k [] = none
last_value k (comment c ∷ ws) = last_value k ws
last_value k (assign j v ∷ ws) = given_or (last_value k ws) (if text_eq j k then some v else none)

trim_right-append : (b : ℕ) (s : Text) → trim_right b (s ++ b ∷ []) ≡ trim_right b s
unfolding trim_right
trim_right-append b [] = ground arith
trim_right-append b (c ∷ s) = rw (trim_right-append b s) refl

trim_byte-append : (b : ℕ) (s : Text) → trim_byte b (s ++ b ∷ []) ≡ trim_byte b s
unfolding trim_byte trim_left
trim_byte-append b [] = ground arith
trim_byte-append b (c ∷ s) = elim (Bool-cases (c == b)) [
  | inl same ↦ rw same (trim_byte-append b s)
  | inr other ↦ rw other (trim_right-append b (c ∷ s))
]

trim_byte-quoted : (b : ℕ) (s : Text) → trim_byte b (b ∷ (s ++ b ∷ [])) ≡ trim_byte b s
unfolding trim_byte trim_left
trim_byte-quoted b s = first (Bool-cases (b == b)) ∙ trim_byte-append b s
  where
    first :
        (b == b ≡ true) ⊎ (b == b ≡ false)
        → trim_byte b (b ∷ (s ++ b ∷ [])) ≡ trim_byte b (s ++ b ∷ [])
    first (inl e) = rw e refl
    first (inr e) = ground (arith, e)

starts-append : (b : ℕ) (k s : Text) → k ≢ [] → starts_with_byte b (k ++ s) ≡ starts_with_byte b k
starts-append b [] s h = absurd (h refl)
starts-append b (c ∷ k) s h = refl

is_empty-append : (k : Text) (b : ℕ) (s : Text) → is_empty (k ++ b ∷ s) ≡ false
is_empty-append [] b s = refl
is_empty-append (c ∷ k) b s = refl

line_of-comment : (c : Text) → IsWritten (comment c) → line_of (b'#' ∷ c) ≡ skipped
unfolding line_of
line_of-comment c h = rw h refl

line_of-assign : (k v : Text) → IsWritten (assign k v) → line_of (text_of (assign k v)) ≡ pair k v
unfolding line_of
line_of-assign k v (whole, key, some_key, lacks, no_comment, trimmed) =
    rw
      (
        whole,
        starts-append b'#' k (b'=' ∷ b'"' ∷ (v ++ b'"' ∷ [])) some_key,
        no_comment,
        is_empty-append k b'=' (b'"' ∷ (v ++ b'"' ∷ [])),
        cut-append b'=' k (b'"' ∷ (v ++ b'"' ∷ [])) lacks,
      )
      (ap (λ x. pair x (trim_byte b'"' (b'"' ∷ (v ++ b'"' ∷ [])))) key
        ∙ ap (pair k) (trim_byte-quoted b'"' v ∙ trimmed))

abbrev pub texts : List Written → List Text
texts [] = []
texts (w ∷ ws) = text_of w ∷ texts ws

lookup-read_lines :
    (ws : List Written) (info : Dict Text) (k : Text)
    → All IsWritten ws
    → lookup k (read_lines (texts ws) info) ≡ given_or (last_value k ws) (lookup k info)
unfolding read_lines last_value
lookup-read_lines [] info k h = refl
lookup-read_lines (comment c ∷ ws) info k (h, hs) =
    rw (line_of-comment c h) (lookup-read_lines ws info k hs)
lookup-read_lines (assign j v ∷ ws) info k (h, hs) = rw (line_of-assign j v h) (
    lookup-read_lines ws (insert j v info) k hs
    ∙ (ap (given_or (last_value k ws)) (lookup-insert j k v info)
        ∙ given_or-assoc (last_value k ws) (text_eq j k) (lookup k info)))
  where
    given_or-assoc :
        (later : Option Text) (b : Bool) (old : Option Text)
        → given_or later (if b then some v else old)
          ≡ given_or (given_or later (if b then some v else none)) old
    given_or-assoc none true old = refl
    given_or-assoc none false old = refl
    given_or-assoc (some x) b old = refl

-- Of a file of comments and of assignments in double quotes, each key is read with the value of its last
-- assignment, and other keys are not there. The file in /usr/lib comes before the one in /etc.
pub lookup-get_os_info :
    (files : Files) (f : BytesBuffer) (ws : List Written) (k : Text)
    → files (codes "/usr/lib/os-release") ≡ ok f
    → (get_lines f).0 ≡ texts ws
    → All IsWritten ws
    → lookup k (get_os_info files) ≡ last_value k ws
unfolding get_os_info lookup
lookup-get_os_info files f ws k found lines h =
    rw (found, lines) (lookup-read_lines ws [] k h ∙ none_old (last_value k ws))
  where
    none_old : (o : Option Text) → given_or o none ≡ o
    none_old none = refl
    none_old (some v) = refl
