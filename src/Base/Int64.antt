-- ===== src/Base/Int64.antt =====
-- Go's int64, and time.Duration over it, as the bit pattern below 2 ^ 64 in two's complement.
-- A time.Time is the number of nanoseconds since an epoch that lies before every time in use.
use Prim.Native.Nat.{ℕ, ◌+◌, ◌-◌, ◌*◌, ◌/◌, ◌%◌, ◌<◌}
use mathlib.Core.Path.{◌≡◌}
use mathlib.Core.Bool.{Bool}
use native.Mathlib.Omega.{arith}
use flowforge.Base.Tests.{ltb, leb, if◌then◌else◌}

abbrev pub Duration : Type 0
Duration = ℕ

abbrev pub Time : Type 0
Time = ℕ

-- 2 ^ 63 and 2 ^ 64
abbrev pub int64_half : ℕ
int64_half = 9223372036854775808

abbrev pub int64_size : ℕ
int64_size = 18446744073709551616

-- `a + b`, `a * b` and `-a`, which wrap around
unfoldable pub add_int64 : ℕ → ℕ → ℕ
add_int64 a b = (a + b) % int64_size

unfoldable pub mul_int64 : ℕ → ℕ → ℕ
mul_int64 a b = (a * b) % int64_size

unfoldable pub neg_int64 : ℕ → ℕ
neg_int64 a = (int64_size - a) % int64_size

unfoldable pub is_negative : ℕ → Bool
is_negative a = leb int64_half a

-- `a < b` of signed numbers
unfoldable pub lt_int64 : ℕ → ℕ → Bool
lt_int64 a b = ltb ((a + int64_half) % int64_size) ((b + int64_half) % int64_size)

-- `a / b` for a positive b: the quotient is truncated towards 0
unfoldable pub div_int64 : ℕ → ℕ → ℕ
unfolding is_negative neg_int64
div_int64 a b = if is_negative a then neg_int64 (neg_int64 a / b) else a / b

-- `t.Add(d)`
unfoldable pub add_time : Time → Duration → Time
unfolding is_negative
add_time t d = if is_negative d then t - (int64_size - d) else t + d

pub lt_int64-eq-ltb : (a b : ℕ) → a < int64_half → b < int64_half → lt_int64 a b ≡ ltb a b
unfolding lt_int64
lt_int64-eq-ltb a b p q = ground arith

pub mul_int64_exact : (a b : ℕ) → a * b < int64_half → mul_int64 a b ≡ a * b
unfolding mul_int64
mul_int64_exact a b p = omega arith

pub add_int64_exact : (a b : ℕ) → a + b < int64_half → add_int64 a b ≡ a + b
unfolding add_int64
add_int64_exact a b p = omega arith

pub add_time_forward : (t d : ℕ) → d < int64_half → add_time t d ≡ t + d
unfolding add_time
add_time_forward t d p = ground arith
