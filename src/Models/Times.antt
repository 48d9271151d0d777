-- ===== src/Models/Times.antt =====
-- Go's `time.Time` and `time.Duration`. A time is a number of nanoseconds since a day before the
-- year 0, the first that the API can parse; a duration is an `int64`, and `Sub` saturates.
use inter_uss_platform.Base.{ℕ, ◌+◌, ◌≤◌, ◌<◌, ◌≡◌, Bool, arith, ltb, leb, nat_eq, if◌then◌else◌}
use inter_uss_platform.Base.Int.{ℤ, pos, negsuc, sub_ℕ, ltb_ℤ}

abbrev pub Time : Type 0
Time = ℕ

abbrev pub second : ℕ
second = 1000000000

abbrev pub minute : ℕ
minute = 60000000000

abbrev pub hour : ℕ
hour = 3600000000000

-- The zero value of `time.Time`, the first of January of the year 1.
abbrev pub zero_time : Time
zero_time = 31708800000000000

unfoldable pub is_zero : Time → Bool
is_zero t = nat_eq t zero_time

-- `t.Before(u)` and `t.After(u)`
unfoldable pub before : Time → Time → Bool
before t u = ltb t u

unfoldable pub after : Time → Time → Bool
after t u = ltb u t

abbrev pub max_duration : ℕ
max_duration = 9223372036854775807

-- The nearest `int64`.
saturate : ℤ → ℤ
saturate (pos n) = if leb n max_duration then pos n else pos max_duration
saturate (negsuc n) = if leb n max_duration then negsuc n else negsuc max_duration

-- `t.Sub(u)`
unfoldable pub sub : Time → Time → ℤ
unfolding saturate
sub t u = saturate (sub_ℕ t u)

-- `d > limit` for a duration that is in range
unfoldable pub longer : ℤ → ℕ → Bool
longer d limit = ltb_ℤ (pos limit) d

-- `d.Abs()`, where the least `int64` has the greatest as its absolute value
unfoldable pub abs : ℤ → ℕ
abs (pos n) = n
abs (negsuc n) = if ltb n max_duration then n + 1 else max_duration

unfoldable pub is_negative : ℤ → Bool
is_negative d = ltb_ℤ d (pos 0)

-- Saturation does not change how a difference compares with a duration that is in range.
pub longer-sub : (t u limit : ℕ) → limit < max_duration → longer (sub t u) limit ≡ ltb (u + limit) t
unfolding longer sub
longer-sub t u limit h = ground arith

pub is_negative-sub : (t u : ℕ) → is_negative (sub t u) ≡ ltb t u
unfolding is_negative sub
is_negative-sub t u = ground arith

pub abs-sub-le :
    (t u limit : ℕ)
    → limit < max_duration
    → abs (sub t u) ≤ limit
    → (t ≤ u + limit) × (u ≤ t + limit)
unfolding abs sub
abs-sub-le t u limit h k = ground arith
