-- ===== src/Go/Base64.antt =====
-- `base64.RawURLEncoding`: three bytes to four characters, without padding.
pub mod RoundTrip
use qonto.Prelude.{
  ℕ, ◌+◌, ◌-◌, ◌*◌, ◌/◌, ◌%◌, ◌&&◌, ◌||◌, Bytes, [], ◌∷◌, Option, none, some, ltb, leb, ◌==◌,
  if◌then◌else◌,
}

-- The character of a sextet: A-Z, a-z, 0-9, '-', '_'.
unfoldable pub enc_char : ℕ → ℕ
enc_char n =
    if ltb n 26
    then b'A' + n
    else if ltb n 52
    then b'a' + (n - 26)
    else if ltb n 62
    then b'0' + (n - 52)
    else if n == 62
    then b'-'
    else b'_'

unfoldable pub dec_char : ℕ → Option ℕ
dec_char c =
    if leb b'A' c && leb c b'Z'
    then some (c - b'A')
    else if leb b'a' c && leb c b'z'
    then some (c - b'a' + 26)
    else if leb b'0' c && leb c b'9'
    then some (c - b'0' + 52)
    else if c == b'-'
    then some 62
    else if c == b'_'
    then some 63
    else none

unfoldable pub encode : Bytes → Bytes
encode [] = []
encode (a ∷ []) = enc_char (a / 4) ∷ enc_char (a % 4 * 16) ∷ []
encode (a ∷ b ∷ []) = enc_char (a / 4) ∷ enc_char (a % 4 * 16 + b / 16) ∷ enc_char (b % 16 * 4) ∷ []
encode (a ∷ b ∷ c ∷ r) =
    enc_char (a / 4)
    ∷ enc_char (a % 4 * 16 + b / 16)
    ∷ enc_char (b % 16 * 4 + c / 64)
    ∷ enc_char (c % 64)
    ∷ encode r

-- The sextets of a text. The decoder skips the two line-break characters; any other character
-- outside the alphabet, '=' among them, is an error.
unfoldable pub sextets : Bytes → Option Bytes
sextets [] = some []
sextets (c ∷ s) =
    let rest = sextets s in
    if c == 10 || c == 13 then rest else elim (dec_char c) [
      | none ↦ none
      | some x ↦ elim rest [ none ↦ none | some xs ↦ some (x ∷ xs) ]
    ]

-- A single sextet at the end is an error; spare bits at the end are dropped.
unfoldable pub join_sextets : Bytes → Option Bytes
join_sextets [] = some []
join_sextets (x ∷ []) = none
join_sextets (x ∷ y ∷ []) = some ((x * 4 + y / 16) ∷ [])
join_sextets (x ∷ y ∷ z ∷ []) = some ((x * 4 + y / 16) ∷ (y % 16 * 16 + z / 4) ∷ [])
join_sextets (x ∷ y ∷ z ∷ w ∷ r) = elim (join_sextets r) [
  | none ↦ none
  | some bs ↦ some ((x * 4 + y / 16) ∷ (y % 16 * 16 + z / 4) ∷ (z % 4 * 64 + w) ∷ bs)
]

unfoldable pub decode : Bytes → Option Bytes
unfolding sextets
decode s = elim (sextets s) [ none ↦ none | some xs ↦ join_sextets xs ]
