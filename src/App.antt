-- ===== src/App.antt =====
-- pkg/app.go, formatDuration. A duration is its number of nanoseconds, not negative and below the
-- largest second of an int64. The hours and minutes are floating-point numbers in the source, whose
-- integral parts are those of the exact quotients: a whole number of seconds is at least 1/86400 of a
-- day away from the next day.
pub mod Duration
pub mod Tests
use ssh2incus.Base.{
  ℕ, Bool, true, false, ◌||◌, List, [], ◌∷◌, ◌++◌, ltb, ◌==◌, if◌then◌else◌, ◌+◌, ◌/◌, ◌%◌,
}
use ssh2incus.Base.Text.{Text, codes, join}
use ssh2incus.Base.Text.Decimal.{itoa}

abbrev pub second : ℕ
second = 1000000000

-- d.Round(time.Second), in seconds.
unfoldable pub round_seconds : ℕ → ℕ
round_seconds d = (d + second / 2) / second

unfoldable pub days : ℕ → ℕ
days s = s / 86400

unfoldable pub hours : ℕ → ℕ
hours s = (s / 3600) % 24

unfoldable pub minutes : ℕ → ℕ
minutes s = (s / 60) % 60

unfoldable pub seconds : ℕ → ℕ
seconds s = s % 60

unfoldable pub counted : ℕ → Text → Text
unfolding itoa
counted n unit = if n == 1 then codes "1 " ++ unit else itoa n ++ (codes " " ++ (unit ++ codes "s"))

unfoldable pub add_part : ℕ → Text → List Text → List Text
unfolding counted
add_part n unit parts = if ltb 0 n then parts ++ counted n unit ∷ [] else parts

abbrev pub is_none : List Text → Bool
is_none [] = true
is_none (p ∷ ps) = false

unfoldable pub add_seconds : ℕ → List Text → List Text
unfolding counted
add_seconds n parts =
    if ltb 0 n || is_none parts then parts ++ counted n (codes "second") ∷ [] else parts

unfoldable pub format_duration : ℕ → Text
unfolding add_part add_seconds join round_seconds days hours minutes seconds
format_duration d =
    let s = round_seconds d in
    join (codes ", ") (
      add_seconds (seconds s) (
        add_part (minutes s) (codes "minute")
          (add_part (hours s) (codes "hour") (add_part (days s) (codes "day") []))))
