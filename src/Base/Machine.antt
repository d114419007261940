-- ===== src/Base/Machine.antt =====
-- Go's int, int64 and time.Duration as 64-bit two's complement bit patterns, numbers below 2 ^ 64:
-- a pattern from 2 ^ 63 on stands for a negative value.
use Prim.Native.Nat.{ℕ, ◌+◌, ◌-◌, ◌*◌, ◌%◌, ◌^◌}
use mathlib.Core.Bool.{Bool, false, ◌||◌}
use takuhai.Base.Tests.{ltb, leb, ◌==◌, if◌then◌else◌}

abbrev pub word : ℕ
word = 2 ^ 64

abbrev pub half_word : ℕ
half_word = 2 ^ 63

abbrev pub max_int : ℕ
max_int = 2 ^ 63 - 1

abbrev pub Int64 : Type 0
Int64 = ℕ

-- n < 0
abbrev pub is_neg : Int64 → Bool
is_neg n = leb half_word n

-- n <= 0
abbrev pub is_nonpos : Int64 → Bool
is_nonpos n = is_neg n || n == 0

-- n > k, for a small constant k
abbrev pub exceeds : Int64 → ℕ → Bool
exceeds n k = if is_neg n then false else ltb k n

abbrev pub add64 : Int64 → Int64 → Int64
add64 a b = (a + b) % word

abbrev pub mul64 : Int64 → Int64 → Int64
mul64 a b = (a * b) % word

-- An instant: nanoseconds since the start of the year 0, the first that RFC 3339 can write.
abbrev pub Time : Type 0
Time = ℕ

-- time.Time{}, the first instant of the year 1; the year 0 has 366 days.
abbrev pub zero_time : Time
zero_time = 31_622_400_000_000_000

-- t.Add(d), for a duration of either sign.
abbrev pub add_time : Time → Int64 → Time
add_time t d = if is_neg d then t - (word - d) else t + d
