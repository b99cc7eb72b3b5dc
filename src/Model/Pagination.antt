-- ===== src/Model/Pagination.antt =====
-- internal/transfer/model/pagination.go: history rows and the cursor.
pub mod RoundTrip
use qonto.Prelude.{
  ℕ, String, Bytes, [], ◌∷◌, ◌++◌, Option, none, some, length, take, drop, ◌==◌, if◌then◌else◌,
}
use qonto.Prelude.Int.{ℤ, pos}
use qonto.Go.Int64.{to_uint64, from_uint64}
use qonto.Go.Errors.{Result, ok, err, Error, other, wrap}
use qonto.Go.Base64
use qonto.Go.Binary.{put_le, get_le}
use qonto.Go.Time.{Time, zero_time, unix_nano, unix}

pub record TransactionHistoryItem : Type 0 where
  pub id : ℤ
  pub counterparty_name : String
  pub counterparty_iban : String
  pub counterparty_bic : String
  pub amount_cents : ℤ
  pub currency : String
  pub description : String
  pub created_at : Time

pub record Cursor : Type 0 where
  pub created_at : Time
  pub id : ℤ

abbrev pub cursor_byte_len : ℕ
cursor_byte_len = 16

-- `Cursor{}`
abbrev pub zero_cursor : Cursor
zero_cursor = record { created_at = zero_time; id = pos 0 }

unfoldable pub encode_cursor : Cursor → Bytes
encode_cursor c =
    Base64.encode (put_le 8 (to_uint64 (unix_nano c.created_at)) ++ put_le 8 (to_uint64 c.id))

-- What follows a successful base64 decode.
unfoldable pub read_cursor : Bytes → Result Cursor
read_cursor buf =
    if length buf == cursor_byte_len
    then ok (record {
      created_at = unix (from_uint64 (get_le (take 8 buf)));
      id = from_uint64 (get_le (take 8 (drop 8 buf)));
    })
    else err (other "invalid cursor: wrong length")

unfoldable pub decode_cursor : Bytes → Result Cursor
unfolding read_cursor
decode_cursor [] = ok zero_cursor
decode_cursor (c ∷ s) = elim (Base64.decode (c ∷ s)) [
  | none ↦ err (wrap "invalid cursor" (other "illegal base64 data"))
  | some buf ↦ read_cursor buf
]
