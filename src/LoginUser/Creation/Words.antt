-- ===== src/LoginUser/Creation/Words.antt =====
-- The words of printed options hold no separator, and the printed text is their join.
use mathlib.Core.List.{append-nil}
use ssh2incus.Base.{
  inl, inr, Bool-cases, ℕ, suc, ◌≡◌, ◌⊎◌, refl, Bool, true, false, Option, none, some, List, [],
  ◌∷◌, ◌++◌, All, All-append, arith,
}
use ssh2incus.Base.Int.{ℤ, pos, negsuc}
use ssh2incus.Base.Text.{Text, codes, join, is_empty}
use ssh2incus.Base.Text.Cut.{Lacks, Lacks-append}
use ssh2incus.Base.Text.Split.{split-join, join-append}
use ssh2incus.Base.Text.Decimal.{itoa, IsDigit, itoa-IsDigit}
use ssh2incus.LoginUser.{LoginCreateConfig}
use ssh2incus.LoginUser.Parse.Config.{parse_create_config, parse_options}
use ssh2incus.LoginUser.Print.{
  config_words, flag_words, config_text, plus_words, given, numbered, flagged, percent_each,
}
use ssh2incus.Base.Text.Numbers.{show_int}
use ssh2incus.LoginUser.Creation.{OptionHas, IsImage, IsProfile, IsConfig, words}

digits-Lacks : (b : ℕ) → ¬ IsDigit b → (s : Text) → All IsDigit s → Lacks b s
digits-Lacks b other [] h = tt
digits-Lacks b other (c ∷ s) (h, hs) = ((λ e. other (rw (← e) h)), digits-Lacks b other s hs)

-- The two bytes that separate: `+` between options, and `~` before the host user.
abbrev IsSeparator : ℕ → Type 0
IsSeparator b = (b ≡ b'+') ⊎ (b ≡ b'~')

separator_case : (b : ℕ) → IsSeparator b → (s : Text) → Lacks b'+' s → Lacks b'~' s → Lacks b s
separator_case b sep [] h k = tt
separator_case b sep (c ∷ s) (h, hs) (k, ks) = (omega arith, separator_case b sep s hs ks)

module _ (b : ℕ) (sep : IsSeparator b) where
  show_int-Lacks : (n : ℤ) → Lacks b (show_int n)
  unfolding show_int
  show_int-Lacks (pos n) = digits-Lacks b (omega arith) (itoa n) (itoa-IsDigit n)
  show_int-Lacks (negsuc n) =
      (omega arith, digits-Lacks b (omega arith) (itoa (suc n)) (itoa-IsDigit (suc n)))

  numbered-Lacks :
      (letter : Text) (o : Option ℤ) → Lacks b letter → All (Lacks b) (numbered letter o)
  numbered-Lacks letter none h = tt
  numbered-Lacks letter (some n) h = (Lacks-append b letter (show_int n) h (show_int-Lacks n), tt)

  flagged-Lacks : (word : Text) (o : Option Bool) → Lacks b word → All (Lacks b) (flagged word o)
  flagged-Lacks word none h = tt
  flagged-Lacks word (some true) h = (h, tt)
  flagged-Lacks word (some false) h = tt

  image-Lacks : (o : Option Text) → OptionHas IsImage o → All (Lacks b) (given (λ image. image) o)
  image-Lacks none h = tt
  image-Lacks (some s) h = (separator_case b sep s h.2 h.3, tt)

  profiles-Lacks : (ps : List Text) → All IsProfile ps → All (Lacks b) (percent_each ps)
  profiles-Lacks [] h = tt
  profiles-Lacks (p ∷ ps) (h, hs) =
      ((omega arith, separator_case b sep p h.1 h.2), profiles-Lacks ps hs)

  pub words-Lacks : (c : LoginCreateConfig) → IsConfig c → All (Lacks b) (words c)
  unfolding config_words flag_words
  words-Lacks c v =
      let all_append = All-append (Lacks b) in
      all_append (config_words c) (flag_words c)
        (all_append (given (λ image. image) c.image) _ (image-Lacks c.image v.image) (
          all_append (percent_each c.profiles) _ (profiles-Lacks c.profiles v.profiles) (
            all_append (numbered (codes "m") c.memory) _
              (numbered-Lacks (codes "m") c.memory (omega arith))
              (all_append (numbered (codes "c") c.cpu) _
                (numbered-Lacks (codes "c") c.cpu (omega arith))
                (numbered-Lacks (codes "d") c.disk (omega arith))))))
        (all_append (flagged (codes "nest") c.nesting) _
          (flagged-Lacks (codes "nest") c.nesting (omega arith))
          (all_append (flagged (codes "priv") c.privileged) _
            (flagged-Lacks (codes "priv") c.privileged (omega arith))
            (flagged-Lacks (codes "vm") c.vm (omega arith))))

-- Nothing after the first `+`, or the words joined by `+`.
abbrev pub joined : List Text → Text
joined [] = []
joined (w ∷ ws) = join (codes "+") (w ∷ ws)

pub plus_words-append : (ws vs : List Text) → plus_words ws ++ plus_words vs ≡ plus_words (ws ++ vs)
unfolding join
plus_words-append [] vs = refl
plus_words-append (w ∷ ws) [] = rw (append-nil, append-nil)
plus_words-append (w ∷ ws) (v ∷ vs) = rw (join-append (codes "+") w v ws vs)

pub config_text-words : (c : LoginCreateConfig) → config_text c ≡ plus_words (words c)
unfolding config_text
config_text-words c = plus_words-append (config_words c) (flag_words c)

join-ne-nil :
    (w : Text) (ws : List Text) → is_empty (join (codes "+") (w ∷ ws)) ≡ true → (w ≡ []) × (ws ≡ [])
unfolding join
join-ne-nil [] [] h = (refl, refl)
join-ne-nil (c ∷ w) [] h = cc
join-ne-nil [] (v ∷ ws) h = cc
join-ne-nil (c ∷ w) (v ∷ ws) h = cc

join_one : join (codes "+") ([] ∷ []) ≡ []
unfolding join
join_one = refl

-- The parser of options reads the joined words one by one.
pub parse_joined :
    (ws : List Text) (c : LoginCreateConfig)
    → All (Lacks b'+') ws
    → parse_create_config (joined ws) c ≡ parse_options ws c
unfolding parse_create_config
parse_joined [] c h = refl
parse_joined (w ∷ ws) c h = elim (Bool-cases (is_empty (join (codes "+") (w ∷ ws)))) [
  | inl empty ↦ let (no_byte, no_word) = join-ne-nil w ws empty in rw (no_byte, no_word, join_one)
  | inr full ↦ ground (arith, full, split-join b'+' w ws h)
]
