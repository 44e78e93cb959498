-- ===== src/Intake/Clock.antt =====
-- intake/handler.go: the comparison `now.Sub(at) >= window` of two readings of the clock with a duration, all in
-- nanoseconds, which may be negative.
use amp_sentinel.Prelude.{ℕ, suc, ◌+◌, ◌*◌, Bool, leb}
use amp_sentinel.Prelude.Int.{ℤ, pos, negsuc}

unfoldable pub has_passed : ℕ → ℤ → ℕ → Bool
has_passed at (pos w) now = leb (at + w) now
has_passed at (negsuc w) now = leb at (now + suc w)

abbrev pub hour : ℕ
hour = 3600 * 1000000000

abbrev pub minute : ℕ
minute = 60 * 1000000000
