-- ===== src/Go/Time.antt =====
-- `time.Time` in UTC, as the exact number of nanoseconds since the Unix epoch.
use qonto.Prelude.{◌-◌, ◌*◌, Bool}
use qonto.Prelude.Int.{ℤ, negsuc, eqb_ℤ}
use qonto.Go.Int64.{wrap64}

abbrev pub Time : Type 0
Time = ℤ

-- January 1 of the year 1: the value of `time.Time{}`.
abbrev pub zero_time : Time
zero_time = negsuc (62_135_596_800 * 1_000_000_000 - 1)

unfoldable pub is_zero : Time → Bool
is_zero t = eqb_ℤ t zero_time

-- `t.UnixNano()`
unfoldable pub unix_nano : Time → ℤ
unix_nano t = wrap64 t

-- `time.Unix(0, nanos).UTC()`
abbrev pub unix : ℤ → Time
unix nanos = nanos
