-- ===== src/Store/Session.antt =====
-- internal/transfer/store/store.go: where a statement runs, how a row is read, and unique
-- violations. `QueryRow`, `Exec`, `Query` and `CopyFrom` are pgx's.
use text.Mathlib.Text.{◌==◌}
use qonto.Prelude.{String, Bool, false, Option, none, some, List, [], ◌∷◌, if◌then◌else◌}
use qonto.Prelude.Int.{ℤ}
use qonto.Go.Errors.{Error, Result, ok, err, pg_error, no_rows, wrap, other, is_no_rows}
use qonto.Go.Action.{Action}
use qonto.Go.Context.{Context, from_context}
use qonto.Database.Engine.{Engine, Target, Value, int, Statement, Reply}

-- `asPgError`: the first *pgconn.PgError on the chain of wrapped errors.
unfoldable pub as_pg_error : Error → Option String
as_pg_error (pg_error code) = some code
as_pg_error (wrap _ x) = as_pg_error x
as_pg_error _ = none

unfoldable pub is_unique_violation : Error → Bool
unfolding as_pg_error
is_unique_violation x = elim (as_pg_error x) [ none ↦ false | some code ↦ code == "23505" ]

-- `Repository.db`: the stashed transaction if there is one, else the pool.
unfoldable pub db : Context → Target
db ctx = if from_context ctx then Target.tx else Target.pool

-- `Scan(&x)` of one integer column
unfoldable pub scan_int : List Value → Result ℤ
scan_int (int n ∷ []) = ok n
scan_int _ = err (other "cannot scan")

-- `Scan` on the reply to `QueryRow`: the first row, or ErrNoRows.
unfoldable pub read_row : {A : Type 0} → (List Value → Result A) → Reply → Result A
read_row scan (Reply.failed x) = err x
read_row scan (Reply.broken _ x) = err x
read_row scan (Reply.rows []) = err no_rows
read_row scan (Reply.rows (row ∷ _)) = scan row

unfoldable pub read_done : Reply → Result (Unit {0})
read_done (Reply.failed x) = err x
read_done (Reply.broken _ x) = err x
read_done (Reply.rows _) = ok tt

module _ (e : Engine) where
  -- squirrel's `ToSql`, whose error is returned under `message`.
  abbrev pub building : {A : Type 0} → String → Statement → Action e.State A → Action e.State A
  building message q m s = elim (e.to_sql q) [ none ↦ m s | some x ↦ (err (wrap message x), s) ]

  unfoldable pub query_row :
      {A : Type 0} → Context → Statement → (List Value → Result A) → Action e.State A
  unfolding read_row
  query_row ctx q scan s = let (r, s') = e.run (db ctx) q s in (read_row scan r, s')

  -- `Exec` and `CopyFrom`, whose result is not used.
  unfoldable pub exec : Context → Statement → Action e.State (Unit {0})
  unfolding read_done
  exec ctx q s = let (r, s') = e.run (db ctx) q s in (read_done r, s')

-- `if errors.Is(err, pgx.ErrNoRows) { return zero, false, nil }`, and any other error is wrapped.
abbrev pub optional : {S A : Type 0} → String → Action S A → Action S (Option A)
optional message m s =
    let (r, s') = m s in
    elim r [
      | ok a ↦ (ok (some a), s')
      | err x ↦ if is_no_rows x then (ok none, s') else (err (wrap message x), s')
    ]
