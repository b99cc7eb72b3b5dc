-- ===== src/Store/Observed.antt =====
-- The store over the traced engine, with the histogram of internal/transfer/store/metrics.go.
use qonto.Prelude.{ℕ, String, Bool, Bytes, Option, []}
use qonto.Prelude.Int.{◌-ℤ◌}
use qonto.Go.Action.{Action}
use qonto.Go.Time.{Time}
use qonto.Go.Context.{Context}
use qonto.Model.Transfer.{Account}
use qonto.Platform.Instruments.{lock_wait_duration}
use qonto.Platform.World.{World, timed, emit, now}
use qonto.Database.Engine.{Engine, Statement}
use qonto.Database.Traced.{traced}
use qonto.Service.Interfaces.{Repository}
use qonto.Store.Accounts.{find_account_for_update}
use qonto.Store.Laws.{repository}

module _ (clock : ℕ → Time) (is_recording : ℕ → Bool) (sql_text : Statement → Bytes)
    (args : Statement → Option Bytes) (span : ℕ) (e : Engine) where
  -- `FindAccountForUpdate` in full: the duration is recorded by a deferred call, on every return.
  unfoldable pub find_account_timed :
      Context → String → String → Action (World e.State) (Option Account)
  unfolding find_account_for_update
  find_account_timed ctx iban bic w =
      let (start, w1) = now clock w in
      let (r, w2) =
        find_account_for_update (traced clock is_recording sql_text args ctx span e) ctx iban bic
          w1 in
      let (end, w3) = now clock w2 in (r, emit (timed lock_wait_duration (end -ℤ start) []) w3)

  -- The engine under the tracer, where `ctx` is passed to pgx.
  abbrev at : Context → Engine
  at ctx = traced clock is_recording sql_text args ctx span e

  -- Each operation passes its own context on, and the span in it.
  abbrev pub observed_repository : Repository (World e.State)
  observed_repository = record {
    advisory_lock = λ ctx. (repository (at ctx)).advisory_lock ctx;
    find_idempotency_record_status =
        λ ctx. (repository (at ctx)).find_idempotency_record_status ctx;
    record_idempotency = λ ctx. (repository (at ctx)).record_idempotency ctx;
    find_account_for_update = find_account_timed;
    debit_account = λ ctx. (repository (at ctx)).debit_account ctx;
    insert_batch = λ ctx. (repository (at ctx)).insert_batch ctx;
    insert_transactions = λ ctx. (repository (at ctx)).insert_transactions ctx;
    transaction_history_page = λ ctx. (repository (at ctx)).transaction_history_page ctx;
  }
