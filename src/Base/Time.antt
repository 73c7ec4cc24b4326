-- ===== src/Base/Time.antt =====
-- Go's `time.Time` and `time.Duration`: an instant is the number of nanoseconds since the zero
-- time, and a duration is a 64-bit number of nanoseconds. `Sub` stays inside that range.
use Prim.Native.Nat.{ℕ, min}
use cronjob.Base.Int.{ℤ, pos, negsuc, sub_ℕ}

abbrev pub Time : Type 0
Time = ℕ

abbrev pub zero_time : Time
zero_time = 0

abbrev pub second : ℕ
second = 1000000000

abbrev pub minute : ℕ
minute = 60000000000

abbrev pub max_int64 : ℕ
max_int64 = 9223372036854775807

abbrev saturate : ℤ → ℤ
saturate (pos n) = pos (min n max_int64)
saturate (negsuc n) = negsuc (min n max_int64)

-- `a.Sub(b)`
unfoldable pub sub_time : Time → Time → ℤ
sub_time a b = saturate (sub_ℕ a b)
