-- ===== src/App/Tests.antt =====
-- Durations that are printed.
use ssh2incus.Base.{◌≡◌, refl, ◌+◌, ◌*◌}
use ssh2incus.Base.Text.{codes}
use ssh2incus.App.{second, format_duration}

hour_and_second : format_duration (3601 * second + 499999999) ≡ codes "1 hour, 1 second"
unfolding format_duration
hour_and_second = refl
