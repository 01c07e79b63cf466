-- ===== src/Compaction/Rounding.antt =====
-- pkg/compaction/compactor.go, `roundTo5Minutes` and `roundTo1Hour`, for times in UTC.
use tinyobs.Base.{ℕ, ◌+◌, ◌*◌, ◌/◌, ◌%◌, ◌≤◌, ◌<◌, ◌≡◌, arith}
use tinyobs.Metric.{Time, minute, hour}

-- `t.Minute()`
abbrev minute_of : Time → ℕ
minute_of t = (t / minute) % 60

-- `time.Date` of the date and the hour of `t`, with the given minutes and no seconds.
abbrev at_minute : Time → ℕ → Time
at_minute t minutes = (t / hour) * hour + minutes * minute

unfoldable pub round_to_5_minutes : Time → Time
round_to_5_minutes t = at_minute t ((minute_of t / 5) * 5)

unfoldable pub round_to_1_hour : Time → Time
round_to_1_hour t = at_minute t 0

-- A time is rounded down to a multiple of five minutes, by less than five minutes.
pub round_to_5_minutes_bounds :
    (t : Time)
    → (round_to_5_minutes t ≤ t)
      × (t < round_to_5_minutes t + 5 * minute)
      × (round_to_5_minutes t % (5 * minute) ≡ 0)
unfolding round_to_5_minutes
round_to_5_minutes_bounds t = omega arith

-- To round to five minutes first does not change the hour that a time is rounded to.
pub round_to_1_hour-round_to_5_minutes :
    (t : Time)
    → (round_to_1_hour (round_to_5_minutes t) ≡ round_to_1_hour t)
      × (round_to_1_hour t ≤ round_to_5_minutes t)
      × (round_to_5_minutes t < round_to_1_hour t + hour)
unfolding round_to_5_minutes round_to_1_hour
round_to_1_hour-round_to_5_minutes t = omega arith
