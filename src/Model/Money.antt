-- ===== src/Model/Money.antt =====
-- internal/transfer/model/money.go: amounts in euros as text, and in cents as int64.
pub mod Value
pub mod Exact
mod Tests
use qonto.Prelude.{
  ℕ, zero, suc, ◌<◌, Bool, true, false, not, ◌&&◌, ◌||◌, Bytes, [], ◌∷◌, ◌++◌, length, Option, none,
  some, ltb, leb, ◌==◌, if◌then◌else◌,
}
use qonto.Prelude.Int.{ℤ, pos, leb_ℤ, ltb_ℤ}
use qonto.Go.Int64.{times_100, add64, neg64, div_100, mod_100}
use qonto.Go.Strings.{Cut, cut}
use qonto.Go.Strconv.{parse_int, format_int, format_int_02}

-- The two errors, each with the text that it quotes.
pub data AmountError : Type 0 where
  bad_format not_positive : Bytes → AmountError

pub data Parsed : Type 0 where
  ok : ℤ → Parsed
  err : AmountError → Parsed

unfoldable pub is_digits : Bytes → Bool
is_digits [] = true
is_digits (r ∷ s) = if ltb r b'0' || ltb b'9' r then false else is_digits s

abbrev pub is_empty : Bytes → Bool
is_empty [] = true
is_empty (_ ∷ _) = false

-- `for len(frac) < 2 { frac += "0" }`: two rounds are enough.
unfoldable pub pad : ℕ → Bytes → Bytes
pad zero frac = frac
pad (suc fuel) frac =
    let rest = pad fuel (frac ++ b'0' ∷ []) in if ltb (length frac) 2 then rest else frac

-- The last test, on the cents that were computed.
unfoldable pub check_positive : Bytes → ℤ → Parsed
check_positive s cents = if leb_ℤ cents (pos 0) then err (not_positive s) else ok cents

unfoldable pub add_frac : Bytes → ℤ → Option ℤ → Parsed
unfolding check_positive
add_frac s cents none = err (bad_format s)
add_frac s cents (some frac_cents) = check_positive s (add64 cents frac_cents)

-- From `strconv.ParseInt(whole, 10, 63)` on.
unfoldable pub combine : Bytes → Cut → Option ℤ → Parsed
unfolding add_frac pad check_positive
combine s parts none = err (bad_format s)
combine s parts (some whole_cents) =
    let cents = times_100 whole_cents in
    if parts.found
    then add_frac s cents (parse_int 63 (pad 2 parts.after))
    else check_positive s cents

unfoldable pub parse_amount_cents : Bytes → Parsed
unfolding is_digits combine
parse_amount_cents s =
    let parts = cut b'.' s in
    let frac_length = length parts.after in
    if is_empty parts.before || not (is_digits parts.before)
    then err (bad_format s)
    else if parts.found && (frac_length == 0 || ltb 2 frac_length || not (is_digits parts.after))
    then err (bad_format s)
    else combine s parts (parse_int 63 parts.before)

-- `fmt.Sprintf("%s%d.%02d", sign, cents/100, cents%100)`
abbrev pub euros : Bytes → ℤ → Bytes
euros sign cents = sign ++ (format_int (div_100 cents) ++ (b'.' ∷ format_int_02 (mod_100 cents)))

unfoldable pub format_amount_cents : ℤ → Bytes
format_amount_cents cents =
    if ltb_ℤ cents (pos 0) then euros (b'-' ∷ []) (neg64 cents) else euros [] cents
