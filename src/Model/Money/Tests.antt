-- ===== src/Model/Money/Tests.antt =====
-- money_test.go, and amounts at the edge of int64.
use qonto.Prelude.{◌≡◌, refl, codes}
use qonto.Prelude.Int.{pos, negsuc, neg}
use qonto.Go.Int64.{times_100, add64, neg64, div_100, mod_100}
use qonto.Go.Strings.{cut}
use qonto.Go.Strconv.{parse_int, parse_uint, scan, format_int, format_int_02}
use qonto.Model.Money.{ok, err, bad_format, not_positive, parse_amount_cents, format_amount_cents}

table :
    (parse_amount_cents (codes "999") ≡ ok (pos 99900))
    × (parse_amount_cents (codes "14.50") ≡ ok (pos 1450))
    × (parse_amount_cents (codes "13.2") ≡ ok (pos 1320))
    × (parse_amount_cents (codes "8024.99") ≡ ok (pos 802499))
    × (parse_amount_cents (codes "0") ≡ err (not_positive (codes "0")))
    × (parse_amount_cents (codes "-5") ≡ err (bad_format (codes "-5")))
    × (parse_amount_cents (codes "1.234") ≡ err (bad_format (codes "1.234")))
    × (parse_amount_cents (codes "") ≡ err (bad_format (codes "")))
    × (parse_amount_cents (codes "5.") ≡ err (bad_format (codes "5.")))
unfolding parse_amount_cents cut parse_int parse_uint scan times_100 add64
table = (refl, refl, refl, refl, refl, refl, refl, refl, refl)

wraps : parse_amount_cents (codes "184467440737095517") ≡ ok (pos 84)
unfolding parse_amount_cents cut parse_int parse_uint scan times_100 add64
wraps = refl

formats :
    (format_amount_cents (pos 1450) ≡ codes "14.50")
    × (format_amount_cents (pos 99900) ≡ codes "999.00")
    × (format_amount_cents (negsuc 999) ≡ codes "-10.00")
    × (format_amount_cents (negsuc 9223372036854775807) ≡ codes "--92233720368547758.-8")
unfolding format_amount_cents format_int format_int_02 neg64 div_100 mod_100 neg
formats = (refl, refl, refl, refl)
