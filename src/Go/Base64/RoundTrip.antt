-- ===== src/Go/Base64/RoundTrip.antt =====
-- Whatever was encoded is decoded to the same bytes, and decoding gives bytes.
use qonto.Prelude.{
  Option-cases, inl, inr, ℕ, ◌+◌, ◌*◌, ◌/◌, ◌%◌, ◌<◌, ◌≡◌, refl, ◌≢◌, Bytes, [], ◌∷◌, some, All,
  IsByte, arith,
}
use qonto.Go.Base64.{enc_char, dec_char, encode, sextets, join_sextets, decode}

dec_char-enc_char :
    (n : ℕ) → n < 64 → (dec_char (enc_char n) ≡ some n) × (enc_char n ≢ 10) × (enc_char n ≢ 13)
unfolding dec_char enc_char
dec_char-enc_char n h = (ground arith, ground arith, ground arith)

dec_char-lt : (c n : ℕ) → dec_char c ≡ some n → n < 64
unfolding dec_char
dec_char-lt c n h = ground arith

sextets-enc_char :
    (n : ℕ) (s : Bytes) {xs : Bytes}
    → n < 64
    → sextets s ≡ some xs
    → sextets (enc_char n ∷ s) ≡ some (n ∷ xs)
unfolding sextets
sextets-enc_char n s h e = ground (arith, dec_char-enc_char n h)

abbrev split : Bytes → Bytes
split [] = []
split (a ∷ []) = a / 4 ∷ (a % 4 * 16) ∷ []
split (a ∷ b ∷ []) = a / 4 ∷ (a % 4 * 16 + b / 16) ∷ (b % 16 * 4) ∷ []
split (a ∷ b ∷ c ∷ r) = a / 4 ∷ (a % 4 * 16 + b / 16) ∷ (b % 16 * 4 + c / 64) ∷ (c % 64) ∷ split r

sextets-encode : (s : Bytes) → All IsByte s → sextets (encode s) ≡ some (split s)
unfolding encode
sextets-encode [] h = unfold sextets in refl
sextets-encode (a ∷ []) h =
    sextets-enc_char _ _ (omega arith) (sextets-enc_char _ _ (omega arith) (unfold sextets in refl))
sextets-encode (a ∷ b ∷ []) h = sextets-enc_char _ _ (omega arith) (
    sextets-enc_char _ _ (omega arith)
      (sextets-enc_char _ _ (omega arith) (unfold sextets in refl)))
sextets-encode (a ∷ b ∷ c ∷ r) h = sextets-enc_char _ _ (omega arith) (
    sextets-enc_char _ _ (omega arith) (
      sextets-enc_char _ _ (omega arith)
        (sextets-enc_char _ _ (omega arith) (sextets-encode r h.1.1.1))))

join-split : (s : Bytes) → All IsByte s → join_sextets (split s) ≡ some s
unfolding join_sextets
join-split [] h = refl
join-split (a ∷ []) h = ground arith
join-split (a ∷ b ∷ []) h = ground arith
join-split (a ∷ b ∷ c ∷ r) h = ground (arith, join-split r h.1.1.1)

-- Bytes that are encoded and decoded come back.
pub decode-encode : (s : Bytes) → All IsByte s → decode (encode s) ≡ some s
unfolding decode
decode-encode s h = ground (arith, sextets-encode s h, join-split s h)

sextets-lt : (s xs : Bytes) → sextets s ≡ some xs → All (λ x. x < 64) xs
unfolding sextets
sextets-lt [] xs h = ground arith
sextets-lt (c ∷ s) [] h = tt
sextets-lt (c ∷ s) (x ∷ xs) h =
    ground (arith, dec_char-lt c x, sextets-lt s xs, sextets-lt s (x ∷ xs))

join-IsByte : (xs bs : Bytes) → All (λ x. x < 64) xs → join_sextets xs ≡ some bs → All IsByte bs
unfolding join_sextets
join-IsByte [] bs h e = ground arith
join-IsByte (x ∷ []) bs h e = cc
join-IsByte (x ∷ y ∷ []) bs h e = ground arith
join-IsByte (x ∷ y ∷ z ∷ []) bs h e = ground arith
join-IsByte (x ∷ y ∷ z ∷ w ∷ r) bs h e = elim (Option-cases (join_sextets r)) [
  | inl bad ↦ absurd (ground arith)
  | inr (rs, er) ↦
      let q : bs ≡ (x * 4 + y / 16) ∷ (y % 16 * 16 + z / 4) ∷ (z % 4 * 64 + w) ∷ rs =
        ground arith in
      rw q (omega arith, (omega arith, (omega arith, join-IsByte r rs h.1.1.1.1 er)))
]

-- What is decoded is bytes.
pub decode-IsByte : (s bs : Bytes) → decode s ≡ some bs → All IsByte bs
unfolding decode
decode-IsByte s bs h = elim (Option-cases (sextets s)) [
  | inl bad ↦ absurd (ground arith)
  | inr (xs, e) ↦ join-IsByte xs bs (sextets-lt s xs e) (ground arith)
]
