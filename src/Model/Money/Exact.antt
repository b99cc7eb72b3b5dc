-- ===== src/Model/Money/Exact.antt =====
-- Where the parser is exact, where it wraps around, and the round trip with the printer.
use qonto.Prelude.{
  ℕ, ◌+◌, ◌/◌, ◌%◌, ◌≤◌, ◌<◌, ◌≡◌, sym, zero, suc, Bytes, [], ◌∷◌, ◌++◌, arith, inl, inr,
}
use mathlib.Core.Path.{subst₂}
use qonto.Go.Strings.{cut}
use qonto.Prelude.Int.{ℤ, pos, neg, ◌≤ℤ◌}
use qonto.Go.Int64.{max_int64, wrap64, wrap64-IsInt64, wrap64_fits, neg64, div_100, mod_100}
use qonto.Go.Strconv.{decimal, format_int}
use qonto.Go.Strconv.Digits.{value-decimal, decimal-IsDigit, decimal-ne-nil, format_int_02-two}
use qonto.Model.Money.{ok, err, bad_format, check_positive, parse_amount_cents, format_amount_cents}
use qonto.Model.Money.Value.{IsAmount, cents, parse_amount_cents-settle, parse_amount_cents_cases}

-- A well-formed amount of at least one cent that fits an int64 is read to the cent.
pub parse_amount_cents_exact :
    (s : Bytes) (v : ℕ) → IsAmount s v → 0 < v → v ≤ max_int64 → parse_amount_cents s ≡ ok (pos v)
unfolding check_positive
parse_amount_cents_exact s v a p h =
    ground (arith, parse_amount_cents-settle s v a, wrap64_fits (pos v))

-- An accepted text is a well-formed amount, and the result is a positive int64 that agrees with
-- its exact number of cents modulo 2^64.
pub parse_amount_cents_sound :
    (s : Bytes) (c : ℤ)
    → parse_amount_cents s ≡ ok c
    → (v : ℕ) × IsAmount s v × (c ≡ wrap64 (pos v)) × (pos 1 ≤ℤ c) × (c ≤ℤ pos max_int64)
unfolding check_positive
parse_amount_cents_sound s c h = elim (parse_amount_cents_cases s) [
  | inl bad ↦ absurd (ground arith)
  | inr (v, a) ↦ (
    v,
    a,
    ground (arith, parse_amount_cents-settle s v a),
    ground (arith, parse_amount_cents-settle s v a),
    ground (arith, parse_amount_cents-settle s v a, wrap64-IsInt64 (pos v)),
  )
]

same_amount : {s t : Bytes} {v w : ℕ} → s ≡ t → v ≡ w → IsAmount t w → IsAmount s v
same_amount {t} {v} e q a = subst₂ IsAmount (sym e) (sym q) a

format_pos :
    (n : ℕ)
    → format_amount_cents (pos n)
      ≡ decimal (n / 100) ++ b'.' ∷ (b'0' + n % 100 / 10) ∷ (b'0' + n % 100 % 10) ∷ []
unfolding format_amount_cents div_100 mod_100 format_int
format_pos n = ground (arith, format_int_02-two (n % 100) (omega arith))

format-IsAmount : (n : ℕ) → n ≤ max_int64 → IsAmount (format_amount_cents (pos n)) n
format-IsAmount n h = same_amount (format_pos n) (omega (arith, value-decimal (n / 100))) (
    cents (decimal (n / 100)) (b'0' + n % 100 / 10) (b'0' + n % 100 % 10) (decimal-ne-nil (n / 100))
      (decimal-IsDigit (n / 100)) (omega arith) (omega arith))

-- Cents that are printed and read again come back, for every positive int64.
pub parse_amount_cents-format_amount_cents :
    (n : ℕ) → 0 < n → n ≤ max_int64 → parse_amount_cents (format_amount_cents (pos n)) ≡ ok (pos n)
parse_amount_cents-format_amount_cents n p h =
    parse_amount_cents_exact _ n (format-IsAmount n h) p h

format_neg :
    (n : ℕ)
    → 0 < n
    → n ≤ max_int64
    → format_amount_cents (neg (pos n)) ≡ b'-' ∷ format_amount_cents (pos n)
unfolding format_amount_cents neg neg64
format_neg zero p h = absurd (omega arith)
format_neg (suc n) p h = ground (arith, wrap64_fits (pos (suc n)) (omega arith))

-- A debit of an int64 other than the least one is printed as a minus sign and the print of the
-- amount, and the parser refuses it.
pub format_amount_cents_debit :
    (n : ℕ)
    → 0 < n
    → n ≤ max_int64
    → (format_amount_cents (neg (pos n)) ≡ b'-' ∷ format_amount_cents (pos n))
      × (parse_amount_cents (format_amount_cents (neg (pos n)))
          ≡ err (bad_format (b'-' ∷ format_amount_cents (pos n))))
unfolding parse_amount_cents cut
format_amount_cents_debit n p h = (format_neg n p h, rw (format_neg n p h) (ground arith))
