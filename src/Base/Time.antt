-- ===== src/Base/Time.antt =====
-- Instants and durations of Go's `time`, in nanoseconds. An instant is counted from the day before
-- year 0, so that every instant that RFC 3339 can write is a natural number; a duration is signed.
use Prim.Native.Nat.{ℕ, ◌+◌, ◌-◌, ◌*◌, ◌%◌, ◌^◌}
use mathlib.Core.Bool.{Bool}
use sentinel_flow_project.Base.Tests.{ltb, leb, ◌==◌, if◌then◌else◌}
use sentinel_flow_project.Base.Int.{ℤ, pos, negsuc, sub_ℕ}

abbrev pub Time : Type 0
Time = ℕ

abbrev pub Duration : Type 0
Duration = ℤ

abbrev pub second : ℕ
second = 1000000000

abbrev pub day : ℕ
day = 86400 * second

-- January 1 of year 1, the zero value of time.Time.
abbrev pub zero_time : Time
zero_time = 367 * day

-- January 1 of year 10000: RFC 3339 writes years of four digits.
abbrev pub end_of_written : Time
end_of_written = zero_time + 3652059 * day

unfoldable pub is_zero : Time → Bool
is_zero t = t == zero_time

abbrev pub max_duration : ℕ
max_duration = 2 ^ 63 - 1

-- t.Sub(u): the difference, held to the range of an int64.
unfoldable pub sub_time : Time → Time → Duration
sub_time t u =
    if leb u t
    then (if ltb max_duration (t - u) then pos max_duration else pos (t - u))
    else (if ltb (max_duration + 1) (u - t) then negsuc max_duration else sub_ℕ t u)

-- t.Truncate(24 * time.Hour) of a UTC instant: the zero time is a whole number of days.
unfoldable pub truncate_day : Time → Time
truncate_day t = t - t % day
