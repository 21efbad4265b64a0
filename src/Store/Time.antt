-- ===== src/Store/Time.antt =====
-- store/time.go. A `time.Time` is its distance in nanoseconds from Go's zero time, which is 0, and
-- a `time.Duration` is a number of nanoseconds.
use sendplane.Common.{ℕ, ◌-◌, ◌%◌, ◌≤◌, ◌≡◌, refl, Bool, arith, ltb, ◌==◌, if◌then◌else◌}

abbrev pub Time : Type 0
Time = ℕ

abbrev pub Duration : Type 0
Duration = ℕ

abbrev pub zero_time : Time
zero_time = 0

abbrev pub is_zero : Time → Bool
is_zero t = t == 0

abbrev pub before : Time → Time → Bool
before t u = ltb t u

abbrev pub after : Time → Time → Bool
after t u = ltb u t

abbrev pub nanosecond : Duration
nanosecond = 1

abbrev pub millisecond : Duration
millisecond = 1_000_000

abbrev pub second : Duration
second = 1_000_000_000

abbrev pub minute : Duration
minute = 60_000_000_000

abbrev pub hour : Duration
hour = 3_600_000_000_000

unfoldable pub truncate_time : Time → Time
truncate_time t = if is_zero t then zero_time else t - t % millisecond

truncate_time-le : (t : Time) → truncate_time t ≤ t
unfolding truncate_time
truncate_time-le t = ground arith

-- A stored time is stored unchanged again.
pub truncate_time_idem : (t : Time) → truncate_time (truncate_time t) ≡ truncate_time t
unfolding truncate_time
truncate_time_idem t = ground arith

pub truncate_time_mono : (t u : Time) → t ≤ u → truncate_time t ≤ truncate_time u
unfolding truncate_time
truncate_time_mono t u h = ground arith

truncate_time-zero : truncate_time zero_time ≡ zero_time
unfolding truncate_time
truncate_time-zero = refl
