-- ===== src/Clock.antt =====
-- time.Time in a location whose offset from UTC does not change, as the nanoseconds that its wall
-- clock shows since Thursday 1970-01-01 00:00, and the methods that the scheduler calls.
use virtualme.Prelude.{ℕ, ◌+◌, ◌*◌, ◌/◌, ◌%◌}

abbrev pub Time : Type 0
Time = ℕ

abbrev pub milli_ns : ℕ
milli_ns = 1_000_000

abbrev pub minute_ns : ℕ
minute_ns = 60_000_000_000

abbrev pub hour_ns : ℕ
hour_ns = 3_600_000_000_000

abbrev pub day_ns : ℕ
day_ns = 86_400_000_000_000

-- t.Weekday(); Sunday is 0.
abbrev pub weekday : Time → ℕ
weekday t = (t / day_ns + 4) % 7

-- t.Hour().
abbrev pub hour : Time → ℕ
hour t = t / hour_ns % 24

-- t.Minute().
abbrev pub minute : Time → ℕ
minute t = t / minute_ns % 60

-- t.AddDate(0, 0, n).
abbrev pub add_days : Time → ℕ → Time
add_days t n = t + n * day_ns

-- time.Date on the calendar day of `t` at `h` o'clock; 24 is the midnight that ends the day.
abbrev pub at_hour : Time → ℕ → Time
at_hour t h = t / day_ns * day_ns + h * hour_ns

-- t.UnixMilli(), up to the location's offset.
abbrev pub unix_milli : Time → ℕ
unix_milli t = t / milli_ns
