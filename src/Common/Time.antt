-- ===== src/Common/Time.antt =====
-- Go's `time`: an instant is the number of nanoseconds since year 1, whose instant zero is the zero
-- `time.Time`; a duration is a signed number of nanoseconds. Instants before year 1 are not
-- represented, and a sum that would be one is instant zero.
use session_service.Common.Tests.{ltb, nat_eq}
use session_service.Common.Int.{ℤ, pos_part, neg_part, sub_ℕ, quot_ℤ}
use Prim.Native.Nat.{ℕ, ◌+◌, ◌-◌, ◌/◌}
use mathlib.Core.Bool.{Bool}

abbrev pub Time : Type 0
Time = ℕ

abbrev pub Duration : Type 0
Duration = ℤ

abbrev pub zero_time : Time
zero_time = 0

abbrev pub second : ℕ
second = 1000000000

abbrev pub minute : ℕ
minute = 60000000000

abbrev pub hour : ℕ
hour = 3600000000000

-- `t.IsZero()`
abbrev pub is_zero : Time → Bool
is_zero t = nat_eq t 0

-- `t.Before(u)`
abbrev pub before : Time → Time → Bool
before t u = ltb t u

-- `t.After(u)`
abbrev pub after : Time → Time → Bool
after t u = ltb u t

-- `t.Add(d)`
abbrev pub add : Time → Duration → Time
add t d = t + pos_part d - neg_part d

-- The seconds from year 1 to 1970.
abbrev unix_epoch : ℕ
unix_epoch = 62135596800

-- `t.Unix()`
abbrev pub unix : Time → ℤ
unix t = sub_ℕ (t / second) unix_epoch

-- `int64(d.Seconds())`
unfoldable pub whole_seconds : Duration → ℤ
unfolding quot_ℤ
whole_seconds d = quot_ℤ d second
