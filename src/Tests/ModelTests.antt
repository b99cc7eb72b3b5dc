-- ===== src/Tests/ModelTests.antt =====
-- Amounts, totals and cursors.
use qonto.Prelude.{ℕ, ◌≡◌, refl, [], ◌∷◌, codes, arith, String, true, All}
use qonto.Prelude.Int.{pos, neg, ◌≤ℤ◌, ◌+ℤ◌}
use qonto.Go.Int64.{IsInt64, max_int64, wrap64}
use qonto.Go.Strconv.Digits.{IsDigit}
use qonto.Go.Errors.{Result}
use qonto.Model.Money.{ok, err, bad_format, is_digits, parse_amount_cents, format_amount_cents}
use qonto.Model.Money.Value.{IsAmount, cents, is_digits_sound}
use qonto.Model.Money.Exact.{
  parse_amount_cents_exact, parse_amount_cents_sound, parse_amount_cents-format_amount_cents,
  format_amount_cents_debit,
}
use qonto.Model.Transfer.{BulkTransferRequest, total_cents}
use qonto.Model.Transfer.Total.{total_cents-wrap64, total_cents_bounds, total_cents_overflow}
use qonto.Model.Pagination.{Cursor, encode_cursor, decode_cursor}
use qonto.Model.Pagination.RoundTrip.{
  encode-ne-nil, decode_cursor-encode_cursor, decode_cursor_stable,
}
use qonto.Tests.Sample.{transfer_of_cents, request_of_cents, affordable}

digits : (s : String) → is_digits (codes s) ≡ true → All IsDigit (codes s)
digits s h = is_digits_sound (codes s) h

parse_amount_cents_exact_example : parse_amount_cents (codes "14.50") ≡ ok (pos 1450)
unfolding is_digits
parse_amount_cents_exact_example =
    parse_amount_cents_exact (codes "14.50") 1450
      (cents (codes "14") b'5' b'0' (λ e. cc) (digits "14" refl) (omega arith, omega arith)
        (omega arith, omega arith))
      (omega arith) (omega arith)

parse_amount_cents_sound_example :
    (v : ℕ) × IsAmount (codes "14.50") v
    × (pos 1450 ≡ wrap64 (pos v))
    × (pos 1 ≤ℤ pos 1450)
    × (pos 1450 ≤ℤ pos max_int64)
parse_amount_cents_sound_example =
    parse_amount_cents_sound (codes "14.50") (pos 1450) parse_amount_cents_exact_example

parse_amount_cents-format_amount_cents_example :
    parse_amount_cents (format_amount_cents (pos 1450)) ≡ ok (pos 1450)
parse_amount_cents-format_amount_cents_example =
    parse_amount_cents-format_amount_cents 1450 (omega arith) (omega arith)

format_amount_cents_debit_run :
    (format_amount_cents (neg (pos 1450)) ≡ b'-' ∷ format_amount_cents (pos 1450))
    × (parse_amount_cents (format_amount_cents (neg (pos 1450)))
        ≡ err (bad_format (b'-' ∷ format_amount_cents (pos 1450))))
format_amount_cents_debit_run = format_amount_cents_debit 1450 (omega arith) (omega arith)

total_cents-wrap64_example : total_cents affordable ≡ wrap64 (pos 6125250)
unfolding ◌+ℤ◌
total_cents-wrap64_example = total_cents-wrap64 affordable

total_cents_bounds_run : (pos 1 ≤ℤ total_cents affordable) × (pos 1450 ≤ℤ total_cents affordable)
unfolding ◌+ℤ◌
total_cents_bounds_run =
    total_cents_bounds affordable (transfer_of_cents 1450) (transfer_of_cents 6123800 ∷ []) refl
      ((omega arith, omega arith), ((omega arith, omega arith), tt)) (omega arith)

abbrev huge : BulkTransferRequest
huge =
    request_of_cents "k3"
      (transfer_of_cents max_int64 ∷ transfer_of_cents max_int64 ∷ transfer_of_cents 102 ∷ [])

total_cents_overflow_run : total_cents huge ≡ pos 100
unfolding ◌+ℤ◌
total_cents_overflow_run = total_cents_overflow huge 100 refl (omega arith)

abbrev some_cursor : Cursor
some_cursor = record { created_at = pos 1700000000000000000; id = pos 42 }

decode_cursor-encode_cursor_example :
    decode_cursor (encode_cursor some_cursor) ≡ Result.ok some_cursor
decode_cursor-encode_cursor_example =
    decode_cursor-encode_cursor some_cursor (omega arith, omega arith) (omega arith, omega arith)

decode_cursor_stable_run :
    IsInt64 (pos 1700000000000000000)
    × IsInt64 (pos 42)
    × (decode_cursor (encode_cursor some_cursor) ≡ Result.ok some_cursor)
decode_cursor_stable_run =
    decode_cursor_stable (encode_cursor some_cursor) some_cursor (encode-ne-nil some_cursor)
      decode_cursor-encode_cursor_example
