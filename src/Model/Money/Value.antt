-- ===== src/Model/Money/Value.antt =====
-- What a well-formed amount is worth, and what `ParseAmountCents` makes of it.
use qonto.Prelude.{
  ℕ, ◌+◌, ◌-◌, ◌*◌, ◌/◌, ◌^◌, ◌≡◌, refl, ◌≢◌, ap, ◌∙◌, true, false, Bool, Bool-cases, ◌⊎◌, inl, inr,
  not, ◌&&◌, ◌||◌, ◌==◌, length, Bytes, [], ◌∷◌, ◌++◌, All, arith, ltb, if◌then◌else◌,
}
use mathlib.Core.List.{cons-ne-nil}
use qonto.Prelude.Int.{pos}
use qonto.Go.Int64.{wrap64, times_100, add64-times_100}
use qonto.Go.Strings.{cut, cut_found, cut_missing, cut_joins}
use qonto.Go.Strconv.Digits.{IsDigit, value, parse_int_digits}
use qonto.Model.Money.{
  Parsed, err, bad_format, is_digits, is_empty, check_positive, parse_amount_cents,
}

-- The grammar of an amount: digits, and after a point one or two more; with its exact cents.
pub data IsAmount : Bytes → ℕ → Type 0 where
  whole : (w : Bytes) → w ≢ [] → All IsDigit w → IsAmount w (value 0 w * 100)
  tenths :
      (w : Bytes) (d : ℕ)
      → w ≢ []
      → All IsDigit w
      → IsDigit d
      → IsAmount (w ++ b'.' ∷ d ∷ []) (value 0 w * 100 + (d - b'0') * 10)
  cents :
      (w : Bytes) (d e : ℕ)
      → w ≢ []
      → All IsDigit w
      → IsDigit d
      → IsDigit e
      → IsAmount (w ++ b'.' ∷ d ∷ e ∷ []) (value 0 w * 100 + ((d - b'0') * 10 + (e - b'0')))

pub is_digits_complete : (s : Bytes) → All IsDigit s → is_digits s ≡ true
unfolding is_digits
is_digits_complete [] h = refl
is_digits_complete (c ∷ s) h = ground (arith, is_digits_complete s h.1)

pub is_digits_sound : (s : Bytes) → is_digits s ≡ true → All IsDigit s
unfolding is_digits
is_digits_sound [] h = tt
is_digits_sound (c ∷ s) h = ground (arith, is_digits_sound s)

no_point : (s : Bytes) → All IsDigit s → All (λ c. c ≢ b'.') s
no_point [] h = tt
no_point (c ∷ s) h = (omega arith, no_point s h.1)

-- The outcome that the exact number of cents decides: the whole euros are read as a 63-bit
-- integer, and the cents are kept modulo 2^64.
abbrev pub settle : Bytes → ℕ → ℕ → Parsed
settle s w v = if ltb w (2 ^ 62) then check_positive s (wrap64 (pos v)) else err (bad_format s)

parse_whole :
    (w : Bytes)
    → w ≢ []
    → All IsDigit w
    → parse_amount_cents w ≡ settle w (value 0 w) (value 0 w * 100)
unfolding parse_amount_cents times_100
parse_whole [] ne d = absurd (ne refl)
parse_whole (c ∷ w) ne d =
    rw (cut_missing b'.' (c ∷ w) (no_point (c ∷ w) d))
      (ground (arith, parse_int_digits 63 (c ∷ w) ne d, is_digits_complete (c ∷ w) d))

parse_cents :
    (w : Bytes) (d e : ℕ)
    → w ≢ []
    → All IsDigit w
    → IsDigit d
    → IsDigit e
    → parse_amount_cents (w ++ b'.' ∷ d ∷ e ∷ [])
      ≡ settle
          (w ++ b'.' ∷ d ∷ e ∷ [])
          (value 0 w)
          (value 0 w * 100 + ((d - b'0') * 10 + (e - b'0')))
unfolding parse_amount_cents
parse_cents [] d e ne dw dd de = absurd (ne refl)
parse_cents (c ∷ w) d e ne dw dd de =
    rw (cut_found b'.' (c ∷ w) (d ∷ e ∷ []) (no_point (c ∷ w) dw)) (
      ground (
        arith,
        parse_int_digits 63 (c ∷ w) ne dw,
        parse_int_digits 63 (d ∷ e ∷ []) (cons-ne-nil d (e ∷ [])) (dd, (de, tt)),
        is_digits_complete (c ∷ w) dw,
        is_digits_complete (d ∷ e ∷ []) (dd, (de, tt)),
        add64-times_100 (value 0 (c ∷ w)) ((d - b'0') * 10 + (e - b'0')),
      ))

parse_tenths :
    (w : Bytes) (d : ℕ)
    → w ≢ []
    → All IsDigit w
    → IsDigit d
    → parse_amount_cents (w ++ b'.' ∷ d ∷ [])
      ≡ settle (w ++ b'.' ∷ d ∷ []) (value 0 w) (value 0 w * 100 + (d - b'0') * 10)
unfolding parse_amount_cents
parse_tenths [] d ne dw dd = absurd (ne refl)
parse_tenths (c ∷ w) d ne dw dd = rw (cut_found b'.' (c ∷ w) (d ∷ []) (no_point (c ∷ w) dw)) (
    ground (
      arith,
      parse_int_digits 63 (c ∷ w) ne dw,
      parse_int_digits 63 (d ∷ b'0' ∷ []) (cons-ne-nil d (b'0' ∷ [])) (dd, (omega arith, tt)),
      is_digits_complete (c ∷ w) dw,
      is_digits_complete (d ∷ []) (dd, tt),
      add64-times_100 (value 0 (c ∷ w)) ((d - b'0') * 10),
    ))

settle_at : (s : Bytes) (w w' v : ℕ) → w ≡ w' → settle s w v ≡ settle s w' v
settle_at s w w' v e = ap (λ q. settle s q v) e

-- On every well-formed amount worth `v` cents, whatever its size, the parser answers by `v` alone:
-- it refuses 2^62 euros and more as badly formed, and else it keeps `v` modulo 2^64 as an int64
-- and refuses it unless that is positive.
pub parse_amount_cents-settle :
    (s : Bytes) (v : ℕ) → IsAmount s v → parse_amount_cents s ≡ settle s (v / 100) v
parse_amount_cents-settle s v (whole w ne dw) =
    parse_whole w ne dw ∙ settle_at w _ _ _ (omega arith)
parse_amount_cents-settle s v (tenths w d ne dw dd) =
    parse_tenths w d ne dw dd ∙ settle_at _ _ _ _ (omega arith)
parse_amount_cents-settle s v (cents w d e ne dw dd de) =
    parse_cents w d e ne dw dd de ∙ settle_at _ _ _ _ (omega arith)

worth : {s t : Bytes} {v : ℕ} → s ≡ t → IsAmount t v → (u : ℕ) × IsAmount s u
worth {v} e a = (v, rw e a)

amount_of_parts :
    (s before after : Bytes) (found : Bool)
    → s ≡ (if found then before ++ b'.' ∷ after else before)
    → is_empty before ≡ false
    → is_digits before ≡ true
    → (found && (length after == 0 || ltb 2 (length after) || not (is_digits after))) ≡ false
    → (v : ℕ) × IsAmount s v
amount_of_parts s [] after found e ne d f = cc
amount_of_parts s (c ∷ w) after false e ne d f =
    worth e (whole (c ∷ w) (cons-ne-nil c w) (is_digits_sound (c ∷ w) d))
amount_of_parts s (c ∷ w) [] true e ne d f = cc
amount_of_parts s (c ∷ w) (x ∷ []) true e ne d f = worth e (
    tenths (c ∷ w) x (cons-ne-nil c w) (is_digits_sound (c ∷ w) d)
      (is_digits_sound (x ∷ []) (ground arith)).0)
amount_of_parts s (c ∷ w) (x ∷ y ∷ []) true e ne d f =
    let xy = is_digits_sound (x ∷ y ∷ []) (ground arith) in
    worth e (cents (c ∷ w) x y (cons-ne-nil c w) (is_digits_sound (c ∷ w) d) xy.0 xy.1.0)
amount_of_parts s (c ∷ w) (x ∷ y ∷ z ∷ r) true e ne d f = absurd (ground arith)

-- Whatever is not a well-formed amount is refused as badly formed.
pub parse_amount_cents_cases :
    (s : Bytes) → (parse_amount_cents s ≡ err (bad_format s)) ⊎ ((v : ℕ) × IsAmount s v)
unfolding parse_amount_cents
parse_amount_cents_cases s = elim (Bool-cases (is_empty (cut b'.' s).before)) [
  | inl empty ↦ inl (ground arith)
  | inr ne ↦ elim (Bool-cases (is_digits (cut b'.' s).before)) [
    | inr other ↦ inl (ground arith)
    | inl d ↦
        elim (Bool-cases (
          (cut b'.' s).found
          && (length (cut b'.' s).after == 0
              || ltb 2 (length (cut b'.' s).after)
              || not (is_digits (cut b'.' s).after)))) [
                | inl bad ↦ inl (ground arith)
                | inr fine ↦ inr (amount_of_parts s _ _ _ (cut_joins b'.' s) ne d fine)
              ]
  ]
]
