-- ===== src/Store/Idempotency.antt =====
-- internal/transfer/store/idempotency.go
use qonto.Prelude.{String, Option, none, [], ◌∷◌, if◌then◌else◌}
use qonto.Prelude.Int.{ℤ}
use qonto.Go.Errors.{ok, err, wrap}
use qonto.Go.Action.{Action, wrapping}
use qonto.Go.Context.{Context}
use qonto.Database.Engine.{Engine, text, int, equals, select, insert, raw}
use qonto.Store.Session.{is_unique_violation, scan_int, building, query_row, exec, optional}

module _ (e : Engine) where
  unfoldable pub advisory_lock : Context → String → Action e.State (Unit {0})
  unfolding exec
  advisory_lock ctx key =
      wrapping "acquire advisory lock"
        (exec e ctx (raw "SELECT pg_advisory_xact_lock(hashtext($1))" (text key ∷ [])))

  unfoldable pub find_idempotency_record_status : Context → String → Action e.State (Option ℤ)
  unfolding query_row scan_int
  find_idempotency_record_status ctx key =
      let q = select (record {
        columns = "response_status" ∷ [];
        table = "idempotency_keys";
        conditions = equals "key" (text key) ∷ [];
        order_by = [];
        limit = none;
        suffix = "";
      }) in
      building e "build find idempotency record query" q
        (optional "find idempotency record" (query_row e ctx q scan_int))

  -- A unique violation is no error.
  abbrev pub tolerant : Action e.State (Unit {0}) → Action e.State (Unit {0})
  tolerant m s =
      let (r, s') = m s in
      elim r [
        | ok a ↦ (ok a, s')
        | err x ↦
            if is_unique_violation x then (ok tt, s') else (err (wrap "record idempotency" x), s')
      ]

  unfoldable pub record_idempotency : Context → String → ℤ → Action e.State (Unit {0})
  unfolding exec is_unique_violation
  record_idempotency ctx key status =
      let q = insert (record {
        table = "idempotency_keys";
        columns = "key" ∷ "response_status" ∷ [];
        values = text key ∷ int status ∷ [];
        suffix = "";
      }) in
      building e "build record idempotency query" q (tolerant (exec e ctx q))
