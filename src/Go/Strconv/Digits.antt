-- ===== src/Go/Strconv/Digits.antt =====
-- What decimal digits spell, and that `decimal` is read back.
use qonto.Prelude.{
  ℕ, zero, suc, ◌+◌, ◌-◌, ◌*◌, ◌/◌, ◌%◌, ◌≤◌, ◌<◌, ◌≡◌, refl, ap, ◌≢◌, some, Bytes, [], ◌∷◌, All,
  arith, length,
}
use qonto.Prelude.Int.{pos}
use qonto.Go.Strconv.{scan, parse_uint, in_range, parse_int, emit, decimal, format_int_02}

abbrev pub IsDigit : ℕ → Type 0
IsDigit c = (b'0' ≤ c) × (c ≤ b'9')

-- The number that digits spell behind `n`.
abbrev pub value : ℕ → Bytes → ℕ
value n [] = n
value n (c ∷ s) = value (n * 10 + (c - b'0')) s

pub scan_complete : (n : ℕ) (s : Bytes) → All IsDigit s → scan n s ≡ some (value n s)
unfolding scan
scan_complete n [] h = refl
scan_complete n (c ∷ s) h = ground (arith, scan_complete (n * 10 + (c - b'0')) s h.1)

pub scan_sound : (n : ℕ) (s : Bytes) {r : ℕ} → scan n s ≡ some r → All IsDigit s × (r ≡ value n s)
unfolding scan
scan_sound n [] h = ground arith
scan_sound n (c ∷ s) {r} h = ground (arith, scan_sound (n * 10 + (c - b'0')) s {r = r})

pub parse_uint_complete : (s : Bytes) → s ≢ [] → All IsDigit s → parse_uint s ≡ some (value 0 s)
unfolding parse_uint
parse_uint_complete [] h d = absurd (h refl)
parse_uint_complete (c ∷ s) h d = scan_complete 0 (c ∷ s) d

pub value-emit : (fuel n : ℕ) (out : Bytes) → n ≤ fuel → value 0 (emit fuel n out) ≡ value n out
unfolding emit
value-emit zero n out h = ap (λ m. value m out) (omega arith)
value-emit (suc fuel) n out h = ground (arith, value-emit fuel (n / 10) ((b'0' + n % 10) ∷ out))

pub emit-IsDigit : (fuel n : ℕ) (out : Bytes) → All IsDigit out → All IsDigit (emit fuel n out)
unfolding emit
emit-IsDigit zero n out h = h
emit-IsDigit (suc fuel) n out h = ground (arith, emit-IsDigit fuel (n / 10) ((b'0' + n % 10) ∷ out))

pub length-emit : (fuel n : ℕ) (out : Bytes) → length out ≤ length (emit fuel n out)
unfolding emit
length-emit zero n out = omega arith
length-emit (suc fuel) n out = ground (arith, length-emit fuel (n / 10) ((b'0' + n % 10) ∷ out))

pub value-decimal : (n : ℕ) → value 0 (decimal n) ≡ n
unfolding decimal
value-decimal n = ground (arith, value-emit n n [])

pub decimal-IsDigit : (n : ℕ) → All IsDigit (decimal n)
unfolding decimal
decimal-IsDigit n = ground (arith, emit-IsDigit n n [])

emit-ne-nil : (fuel n : ℕ) (out : Bytes) → n ≤ fuel → n ≢ 0 → emit fuel n out ≢ []
unfolding emit
emit-ne-nil zero n out h p = absurd (omega arith)
emit-ne-nil (suc fuel) n out h p = grind (arith, length-emit fuel (n / 10) ((b'0' + n % 10) ∷ out))

pub decimal-ne-nil : (n : ℕ) → decimal n ≢ []
unfolding decimal
decimal-ne-nil n = ground (arith, emit-ne-nil n n [])

pub parse_int_digits :
    (bits : ℕ) (s : Bytes)
    → s ≢ []
    → All IsDigit s
    → parse_int bits s ≡ in_range bits (pos (value 0 s))
unfolding parse_int
parse_int_digits bits [] h d = absurd (h refl)
parse_int_digits bits (c ∷ s) h d = ground (arith, parse_uint_complete (c ∷ s) h d)

emit_zero : (fuel : ℕ) (out : Bytes) → emit fuel 0 out ≡ out
unfolding emit
emit_zero zero out = refl
emit_zero (suc fuel) out = refl

emit_small :
    (fuel n : ℕ) (out : Bytes) → n ≤ fuel → 0 < n → n < 10 → emit fuel n out ≡ (b'0' + n) ∷ out
unfolding emit
emit_small zero n out h p q = absurd (omega arith)
emit_small (suc fuel) n out h p q =
    let e : n / 10 ≡ 0 = omega arith in
    rw e (ground (arith, emit_zero fuel ((b'0' + n % 10) ∷ out)))

-- `%02d` of a number below 100 is its two digits.
pub format_int_02-two :
    (n : ℕ) → n < 100 → format_int_02 (pos n) ≡ (b'0' + n / 10) ∷ (b'0' + n % 10) ∷ []
unfolding format_int_02 decimal
format_int_02-two zero h = refl
format_int_02-two (suc n) h =
    ground
      (arith, emit_small (suc n) (suc n) [], emit_small n (suc n / 10) ((b'0' + suc n % 10) ∷ []))
