-- ===== src/Go/Int64.antt =====
-- Go's int64 and uint64: two's complement, wrap-around on overflow, division towards zero.
use qonto.Prelude.{ℕ, ◌+◌, ◌-◌, ◌*◌, ◌/◌, ◌%◌, ◌^◌, ◌<◌, ◌≡◌, arith, ltb, if◌then◌else◌}
use qonto.Prelude.Int.{ℤ, pos, negsuc, ◌≤ℤ◌, ◌+ℤ◌, neg}

abbrev pub two_64 : ℕ
two_64 = 2 ^ 64

abbrev pub max_int64 : ℕ
max_int64 = 2 ^ 63 - 1

-- The values of an int64.
abbrev pub IsInt64 : ℤ → Type 0
IsInt64 a = (negsuc max_int64 ≤ℤ a) × (a ≤ℤ pos max_int64)

-- `uint64(x)`
unfoldable pub to_uint64 : ℤ → ℕ
to_uint64 (pos n) = n % two_64
to_uint64 (negsuc n) = two_64 - 1 - n % two_64

-- `int64(u)`
unfoldable pub from_uint64 : ℕ → ℤ
from_uint64 u = if ltb u (2 ^ 63) then pos u else negsuc (two_64 - 1 - u)

-- The int64 that arithmetic leaves where the exact result is `a`.
unfoldable pub wrap64 : ℤ → ℤ
unfolding to_uint64 from_uint64
wrap64 a = from_uint64 (to_uint64 a)

-- `x * 100`, on an int64
unfoldable pub times_100 : ℤ → ℤ
unfolding wrap64
times_100 (pos n) = wrap64 (pos (n * 100))
times_100 (negsuc n) = wrap64 (negsuc (n * 100 + 99))

unfoldable pub add64 : ℤ → ℤ → ℤ
unfolding wrap64 ◌+ℤ◌
add64 a b = wrap64 (a +ℤ b)

unfoldable pub neg64 : ℤ → ℤ
unfolding wrap64 neg
neg64 a = wrap64 (neg a)

-- `x / 100` and `x % 100` round towards zero, and the remainder takes the sign of x.
unfoldable pub div_100 : ℤ → ℤ
unfolding neg
div_100 (pos n) = pos (n / 100)
div_100 (negsuc n) = neg (pos ((n + 1) / 100))

unfoldable pub mod_100 : ℤ → ℤ
unfolding neg
mod_100 (pos n) = pos (n % 100)
mod_100 (negsuc n) = neg (pos ((n + 1) % 100))

pub wrap64-IsInt64 : (a : ℤ) → IsInt64 (wrap64 a)
unfolding wrap64
wrap64-IsInt64 a = ground arith

pub wrap64_fits : (a : ℤ) → IsInt64 a → wrap64 a ≡ a
unfolding wrap64
wrap64_fits a h = ground arith

pub from_uint64-to_uint64 : (a : ℤ) → IsInt64 a → from_uint64 (to_uint64 a) ≡ a
unfolding to_uint64 from_uint64
from_uint64-to_uint64 a h = ground arith

pub to_uint64-lt : (a : ℤ) → to_uint64 a < two_64
unfolding to_uint64
to_uint64-lt a = ground arith

-- On a number below 2^62, cents by the hundred and then the rest come to one wrapped sum.
pub add64-times_100 :
    (n m : ℕ) → m < 100 → add64 (times_100 (pos n)) (pos m) ≡ wrap64 (pos (n * 100 + m))
unfolding add64 times_100
add64-times_100 n m h = ground arith

pub from_uint64-IsInt64 : (u : ℕ) → u < two_64 → IsInt64 (from_uint64 u)
unfolding from_uint64
from_uint64-IsInt64 u h = ground arith
