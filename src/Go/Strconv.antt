-- ===== src/Go/Strconv.antt =====
-- `strconv.ParseInt` in base 10, `%d` and `%02d`.
pub mod Digits
use qonto.Prelude.{
  ℕ, zero, suc, ◌+◌, ◌-◌, ◌*◌, ◌/◌, ◌%◌, ◌^◌, ◌<◌, ◌||◌, Option, none, some, Bytes, [], ◌∷◌, ltb,
  ◌==◌, if◌then◌else◌,
}
use qonto.Prelude.Int.{ℤ, pos, negsuc, neg}

-- The number that decimal digits spell behind `n`; anything but a digit fails.
unfoldable pub scan : ℕ → Bytes → Option ℕ
scan n [] = some n
scan n (c ∷ s) = if ltb c b'0' || ltb b'9' c then none else scan (n * 10 + (c - b'0')) s

unfoldable pub parse_uint : Bytes → Option ℕ
parse_uint [] = none
parse_uint (c ∷ s) = scan 0 (c ∷ s)

abbrev pub in_range : ℕ → ℤ → Option ℤ
in_range bits (pos n) = if ltb n (2 ^ (bits - 1)) then some (pos n) else none
in_range bits (negsuc n) = if ltb n (2 ^ (bits - 1)) then some (negsuc n) else none

abbrev pub and_then : Option ℕ → (ℕ → Option ℤ) → Option ℤ
and_then none f = none
and_then (some n) f = f n

-- `strconv.ParseInt(s, 10, bits)`: a sign, then one or more digits. `none` is any error.
unfoldable pub parse_int : ℕ → Bytes → Option ℤ
unfolding neg
parse_int bits [] = none
parse_int bits (c ∷ s) =
    if c == b'-'
    then and_then (parse_uint s) (λ n. in_range bits (neg (pos n)))
    else if c == b'+'
    then and_then (parse_uint s) (λ n. in_range bits (pos n))
    else and_then (parse_uint (c ∷ s)) (λ n. in_range bits (pos n))

-- The digits of `n` in front of `out`; `n` rounds are more than enough.
unfoldable pub emit : ℕ → ℕ → Bytes → Bytes
emit zero n out = out
emit (suc fuel) n out =
    let rest = emit fuel (n / 10) ((b'0' + n % 10) ∷ out) in if n == 0 then out else rest

-- `%d` of a number that is not negative
unfoldable pub decimal : ℕ → Bytes
unfolding emit
decimal n = if n == 0 then b'0' ∷ [] else emit n n []

-- `%d`
unfoldable pub format_int : ℤ → Bytes
unfolding decimal
format_int (pos n) = decimal n
format_int (negsuc n) = b'-' ∷ decimal (suc n)

-- `%02d`: the sign counts towards the width.
unfoldable pub format_int_02 : ℤ → Bytes
unfolding format_int
format_int_02 (pos n) = if ltb n 10 then b'0' ∷ decimal n else decimal n
format_int_02 (negsuc n) = format_int (negsuc n)
