-- ===== src/Options/Quoting.antt =====
-- Arguments that are quoted for parseArgs come back, but for the empty ones.
use ssh2incus.Base.{
  ℕ, ◌≡◌, refl, sym, ap, ◌∙◌, inl, inr, Bool, true, false, ◌||◌, List, [], ◌∷◌, ◌++◌, ◌==◌,
  if◌then◌else◌, arith, Bool-cases,
}
use ssh2incus.Base.Text.{Text, codes, is_empty, join}
use mathlib.Core.List.{append_assoc, append-nil}
use ssh2incus.Options.Args.{Scan, no_scan, valid_bytes, end_arg, scan_rune, scan_runes, parse_args}

-- A backslash before each backslash and each quote.
abbrev pub escaped : Text → Text
escaped [] = []
escaped (c ∷ s) = if (c == 92) || (c == b'"') then 92 ∷ (c ∷ escaped s) else c ∷ escaped s

abbrev pub quoted : Text → Text
quoted s = b'"' ∷ (escaped s ++ b'"' ∷ [])

abbrev pub quoted_all : List Text → List Text
quoted_all [] = []
quoted_all (w ∷ ws) = quoted w ∷ quoted_all ws

abbrev pub non_empty : List Text → List Text
non_empty [] = []
non_empty (w ∷ ws) = if is_empty w then non_empty ws else w ∷ non_empty ws

abbrev within : List Text → Text → Bool → Scan
within done w quotes = record {
  args = done;
  current_arg = w;
  in_quotes = quotes;
  escape_next = false;
}

scan_rune-plain :
    (c : ℕ) (w : Text) (done : List Text)
    → ((c == 92) || (c == b'"')) ≡ false
    → scan_rune c (within done w true) ≡ within done (w ++ c ∷ []) true
unfolding scan_rune
scan_rune-plain c w done plain = ground arith

scan_runes-escaped :
    (s w rest : Text) (done : List Text)
    → scan_runes (escaped s ++ rest) (within done w true)
      ≡ scan_runes rest (within done (w ++ s) true)
unfolding scan_runes
scan_runes-escaped [] w rest done = simp append-nil
scan_runes-escaped (c ∷ s) w rest done =
    let longer =
      scan_runes-escaped s (w ++ c ∷ []) rest done
      ∙ ap (λ v. scan_runes rest (within done v true)) (append_assoc w (c ∷ []) s) in
    elim (Bool-cases ((c == 92) || (c == b'"'))) [
      | inl special ↦ rw special longer
      | inr plain ↦
          rw plain (ap (scan_runes (escaped s ++ rest)) (scan_rune-plain c w done plain) ∙ longer)
    ]

scan_runes-quoted :
    (w rest : Text) (done : List Text)
    → scan_runes (quoted w ++ rest) (within done [] false) ≡ scan_runes rest (within done w false)
unfolding scan_runes
scan_runes-quoted w rest done =
    ap (λ t. scan_runes t (within done [] true)) (append_assoc (escaped w) (b'"' ∷ []) rest)
    ∙ scan_runes-escaped w [] (b'"' ∷ rest) done

end_arg-within :
    (w : Text) (done : List Text)
    → end_arg (within done w false) ≡ within (done ++ non_empty (w ∷ [])) [] false
end_arg-within [] done = rw append-nil refl
end_arg-within (c ∷ w) done = refl

non_empty-cons :
    (w v : Text) (ws done : List Text)
    → (done ++ non_empty (w ∷ [])) ++ non_empty (v ∷ ws) ≡ done ++ non_empty (w ∷ v ∷ ws)
non_empty-cons [] v ws done = ap (λ l. l ++ non_empty (v ∷ ws)) (append-nil done)
non_empty-cons (c ∷ w) v ws done = append_assoc done ((c ∷ w) ∷ []) (non_empty (v ∷ ws))

scan_runes-join :
    (w : Text) (ws done : List Text)
    → (end_arg (scan_runes (join (codes " ") (quoted_all (w ∷ ws))) (within done [] false))).args
      ≡ done ++ non_empty (w ∷ ws)
unfolding join scan_runes
scan_runes-join w [] done =
    ap (λ sc. (end_arg sc).args)
      (ap (λ t. scan_runes t (within done [] false)) (sym (append-nil (quoted w)))
        ∙ scan_runes-quoted w [] done)
    ∙ ap (λ sc. sc.args) (end_arg-within w done)
scan_runes-join w (v ∷ ws) done =
    let rest = join (codes " ") (quoted v ∷ quoted_all ws) in
    ap (λ sc. (end_arg sc).args)
      (scan_runes-quoted w (32 ∷ rest) done ∙ ap (scan_runes rest) (end_arg-within w done))
    ∙ (scan_runes-join v ws (done ++ non_empty (w ∷ [])) ∙ non_empty-cons w v ws done)

abbrev parsed : Text → List Text
parsed s = (end_arg (scan_runes s no_scan)).args

-- Arguments that stand in quotes, with a backslash before each backslash and each quote, and with
-- one space between them, are parsed as they are, except that empty ones are lost, if the whole is
-- valid UTF-8, so that the loop over its runes gives its bytes.
pub parse_args-quoted_all :
    (ws : List Text)
    → valid_bytes 0 (join (codes " ") (quoted_all ws)) ≡ join (codes " ") (quoted_all ws)
    → parse_args (join (codes " ") (quoted_all ws)) ≡ non_empty ws
unfolding parse_args join scan_runes
parse_args-quoted_all [] valid = ap parsed valid
parse_args-quoted_all (w ∷ ws) valid = ap parsed valid ∙ scan_runes-join w ws []
