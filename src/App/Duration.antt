-- ===== src/App/Duration.antt =====
-- The parts of a printed duration add up to it.
use ssh2incus.Base.{ℕ, List, [], ◌∷◌, ltb, if◌then◌else◌}
use ssh2incus.Base.Text.{Text, codes}
use ssh2incus.App.{counted}

-- The counts with their units, largest first, without those of no such unit.
abbrev pub some_of : List (ℕ × Text) → List Text
some_of [] = []
some_of ((n, unit) ∷ ps) = if ltb 0 n then counted n unit ∷ some_of ps else some_of ps

abbrev pub or_no_seconds : List Text → List Text
or_no_seconds [] = codes "0 seconds" ∷ []
or_no_seconds (p ∷ ps) = p ∷ ps

-- The counts of the four units.
abbrev pub counts : (d h m s : ℕ) → List (ℕ × Text)
counts d h m s =
    (d, codes "day") ∷ (h, codes "hour") ∷ (m, codes "minute") ∷ (s, codes "second") ∷ []
