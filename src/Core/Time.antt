-- ===== src/Core/Time.antt =====
-- Go's `time` package as the code uses it: an instant is the number of nanoseconds since the zero
-- `time.Time` (the first of January of year 1), a duration a signed 64-bit number of nanoseconds.
use idemlease.Base.{ℕ, suc, ◌+◌, ◌-◌, ◌/◌, min, leb, if◌then◌else◌}
use idemlease.Base.{Bool, ltb}
use idemlease.Base.Int.{ℤ, pos, negsuc}

abbrev pub Time : Type 0
Time = ℕ

abbrev pub Duration : Type 0
Duration = ℤ

abbrev pub zero_time : Time
zero_time = 0

abbrev pub max_duration : ℕ
max_duration = 9223372036854775807

abbrev pub second : ℕ
second = 1000000000

-- `t.Add(d)`. No duration reaches back 300 years, so an instant of this era stays above 0.
abbrev pub add : Time → Duration → Time
add t (pos n) = t + n
add t (negsuc n) = t - suc n

-- `t.Sub(u)`, which stops at the largest and the smallest duration.
abbrev pub sub : Time → Time → Duration
sub t u = if leb u t then pos (min (t - u) max_duration) else negsuc (min (u - t - 1) max_duration)

-- `t.Before(u)`
abbrev pub before : Time → Time → Bool
before t u = ltb t u

abbrev pub millisecond : ℕ
millisecond = 1000000

-- `d.Milliseconds()`, and 1 where that is less.
unfoldable pub at_least_one_ms : Duration → ℕ
at_least_one_ms (pos n) = if ltb (n / millisecond) 1 then 1 else n / millisecond
at_least_one_ms (negsuc n) = 1
