-- ===== src/Go/Errors.antt =====
-- Go's `error` values, and the pair (value, error) of a call.
use qonto.Prelude.{String, Bool, true, false, Option, none, some}

-- `pg_error` is a *pgconn.PgError with its SQLSTATE, `no_rows` is pgx.ErrNoRows, and `wrap` is
-- fmt.Errorf("...: %w", err); `other` stands for every error value that wraps nothing.
pub data Error : Type 0 where
  other : String → Error
  pg_error : String → Error
  no_rows : Error
  wrap : String → Error → Error

pub data Result {ℓ} (A : Type ℓ) : Type ℓ where
  ok : A → Result A
  err : Error → Result A

-- The `err` of a call, `none` for nil.
abbrev pub error_of {ℓ} : {A : Type ℓ} → Result A → Option Error
error_of (ok _) = none
error_of (err e) = some e

infixl 5 ◌>>=◌
abbrev pub ◌>>=◌ {ℓ κ} : {A : Type ℓ} {B : Type κ} → Result A → (A → Result B) → Result B
ok a >>= f = f a
err e >>= f = err e

-- `errors.Is(err, pgx.ErrNoRows)`
unfoldable pub is_no_rows : Error → Bool
is_no_rows no_rows = true
is_no_rows (wrap _ e) = is_no_rows e
is_no_rows _ = false
