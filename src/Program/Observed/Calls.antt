-- ===== src/Program/Observed/Calls.antt =====
-- The calls of the repository on the traced engine and on the engine behind it.
use qonto.Prelude.{ℕ, String, Bool, Bytes, refl, Option, ◌+◌, ◌++◌, [], ◌∷◌, arith}
use qonto.Go.Errors.{Result, ok, err, wrap}
use qonto.Go.Time.{Time}
use qonto.Go.Action.{Action}
use qonto.Go.Context.{Context, with_phase}
use qonto.Database.Engine.{Engine, Statement}
use qonto.Database.Traced.Sent.{Grew, Grew-refl, Grew-trans, Grew-emits}
use qonto.Platform.World.{World, timed, emit, now}
use qonto.Store.Session.{db, scan_int}
use qonto.Store.Idempotency.{advisory_lock, find_idempotency_record_status, record_idempotency}
use qonto.Store.Accounts.{scan_account, find_account_for_update, debit_account, insert_batch}
use qonto.Store.Transactions.{
  insert_transactions, history_query, read_items, transaction_history_page,
}
use qonto.Model.Pagination.{Cursor, decode_cursor}
use qonto.Service.History.{page_of, list_from, list_transaction_history}
use qonto.Prelude.Int.{ℤ, ◌-ℤ◌}
use qonto.Service.Observed.{
  Mark, outcome, violation, emissions_of, Observed, done, stop, mark, call, run_observed,
}
use qonto.Service.Observed.Erase.{erase}
use qonto.Store.Laws.{repository}
use qonto.Store.Observed.{find_account_timed, observed_repository}
use qonto.Service.Interfaces.{Repository}
use qonto.Platform.Instruments.{lock_wait_duration}
use qonto.Service.Task.{
  Call, take_lock, read_status, read_account, write_batch, write_transactions, write_debit,
  write_key, perform, run,
}
use qonto.Program.Observed.Simulation.{Sim, Sim-pure, Sim-bind, Sim-wrapping, Sim-optional}
use qonto.Program.Observed.Statements.{
  te, Sim-tolerant, Sim-building, Sim-run, same_run, Sim-query_row, Sim-exec,
}

module _ (clock : ℕ → Time) (is_recording : ℕ → Bool) (sql_text : Statement → Bytes)
    (args : Statement → Option Bytes) (span : ℕ) (e : Engine) where
  abbrev pub repo : Repository (World e.State)
  repo = observed_repository clock is_recording sql_text args span e

  -- A duration behind an action.
  Sim-timed :
      {A : Type 0} (m : Action (World e.State) A) (m' : Action e.State A)
      → Sim e m m'
      → Sim e
          (λ w.
            let (start, w1) = now clock w in
            let (r, w2) = m w1 in
            let (end, w3) = now clock w2 in
            (r, emit (timed lock_wait_duration (end -ℤ start) []) w3))
          m'
  Sim-timed m m' h w =
      let (same, left, more) = h (now clock w).1 in
      let waited =
        timed lock_wait_duration (clock (m (now clock w).1).1.readings -ℤ clock w.readings) [] in
      (same, left, Grew-emits e w (m (now clock w).1).1 (waited ∷ []) (omega arith) refl more)

  Sim-find_account :
      (ctx : Context) (iban bic : String)
      → Sim e
          (find_account_for_update (te clock is_recording sql_text args ctx span e) ctx iban bic)
          (find_account_for_update e ctx iban bic)
  unfolding find_account_for_update
  Sim-find_account ctx iban bic =
      Sim-building clock is_recording sql_text args ctx span e "build find account query" _ _ _ (
        Sim-optional e "find account for update" _ _
          (Sim-query_row clock is_recording sql_text args ctx span e _ scan_account))

  -- Every call of the repository inside a submission.
  pub Sim-perform : (c : Call) → Sim e (perform repo c) (perform (repository e) c)
  unfolding find_account_timed advisory_lock find_idempotency_record_status insert_batch
      insert_transactions debit_account record_idempotency
  Sim-perform (take_lock ctx k) =
      Sim-wrapping e "acquire advisory lock" _ _
        (Sim-exec clock is_recording sql_text args ctx span e _)
  Sim-perform (read_status ctx k) =
      Sim-building clock is_recording sql_text args ctx span e "build find idempotency record query"
        _ _ _
        (Sim-optional e "find idempotency record" _ _
          (Sim-query_row clock is_recording sql_text args ctx span e _ scan_int))
  Sim-perform (read_account ctx iban bic) =
      Sim-timed
        (find_account_for_update (te clock is_recording sql_text args ctx span e) ctx iban bic)
        (find_account_for_update e ctx iban bic) (Sim-find_account ctx iban bic)
  Sim-perform (write_batch ctx id k total) =
      Sim-building clock is_recording sql_text args ctx span e "build insert batch query" _ _ _ (
        Sim-wrapping e "insert batch" _ _
          (Sim-query_row clock is_recording sql_text args ctx span e _ scan_int))
  Sim-perform (write_transactions ctx id batch ts) =
      Sim-wrapping e "insert transactions" _ _
        (Sim-exec clock is_recording sql_text args ctx span e _)
  Sim-perform (write_debit ctx id amount) =
      Sim-building clock is_recording sql_text args ctx span e "build debit account query" _ _ _ (
        Sim-wrapping e "debit account" _ _
          (Sim-query_row clock is_recording sql_text args ctx span e _ scan_int))
  Sim-perform (write_key ctx k status) =
      Sim-building clock is_recording sql_text args ctx span e "build record idempotency query" _ _
        _
        (Sim-tolerant clock is_recording sql_text args ctx span e _ _
          (Sim-exec clock is_recording sql_text args ctx span e _))

  mark-Grew :
      (w : World e.State) (m : Mark)
      → Grew e w (record w { emitted = w.emitted ++ emissions_of span m })
  unfolding emissions_of
  mark-Grew w (outcome name status) =
      Grew-emits e w w (emissions_of span (outcome name status)) (omega arith) refl (Grew-refl e w)
  mark-Grew w (violation x) =
      Grew-emits e w w (emissions_of span (violation x)) (omega arith) refl (Grew-refl e w)

  pub Sim-run_observed :
      {A : Type 0} (t : Observed A)
      → Sim e (run_observed repo span t) (run (repository e) (erase t))
  unfolding erase
  Sim-run_observed (done a) w = Sim-pure e (ok a) w
  Sim-run_observed (stop x) w = Sim-pure e (err x) w
  Sim-run_observed (mark m t) w =
      let marked : World e.State = record w { emitted = w.emitted ++ emissions_of span m } in
      let (same, left, more) = Sim-run_observed t marked in
      (same, left, Grew-trans e w marked (run_observed repo span t marked).1 (mark-Grew w m) more)
  Sim-run_observed (call c k) w =
      Sim-bind e (perform repo c) (perform (repository e) c) (λ a. run_observed repo span (k a))
        (λ a. run (repository e) (erase (k a))) (Sim-perform c) (λ a. Sim-run_observed (k a)) w

  Sim-page :
      (ctx : Context) (account_id : ℤ) (cursor : Cursor) (limit : ℕ)
      → Sim e
          (repo.transaction_history_page ctx account_id cursor limit)
          ((repository e).transaction_history_page ctx account_id cursor limit)
  unfolding transaction_history_page
  Sim-page ctx account_id cursor limit =
      let q = history_query account_id cursor limit in
      Sim-building clock is_recording sql_text args ctx span e "build transaction history query" q _
        _
        (Sim-run clock is_recording sql_text args ctx span e (read_items e) (db ctx) q
          (same_run clock is_recording sql_text args ctx span e (db ctx) q))

  -- The history of an account.
  pub Sim-history :
      (ctx : Context) (account_id : ℤ) (cursor : Bytes) (limit : ℕ)
      → Sim e
          (list_transaction_history repo ctx account_id cursor limit)
          (list_transaction_history (repository e) ctx account_id cursor limit)
  unfolding list_transaction_history list_from
  Sim-history ctx account_id cursor limit = on (decode_cursor cursor)
    where
      listing : Context
      listing = with_phase ctx "list_transaction_history"

      on :
          (c : Result Cursor)
          → Sim e
              (list_from repo listing account_id limit c)
              (list_from (repository e) listing account_id limit c)
      on (err x) = Sim-pure e (err (wrap "decode cursor" x))
      on (ok c) =
          Sim-bind e (repo.transaction_history_page listing account_id c (limit + 1))
            ((repository e).transaction_history_page listing account_id c (limit + 1))
            (λ items w. (ok (page_of limit items), w)) (λ items s. (ok (page_of limit items), s))
            (Sim-page listing account_id c (limit + 1))
            (λ items. Sim-pure e (ok (page_of limit items)))
