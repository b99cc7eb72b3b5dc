-- ===== src/Tests/StoreTests.antt =====
-- The store and the transaction on the engine in memory.
use qonto.Prelude.{ℕ, ◌≡◌, refl, Option, none, some, arith, ap}
use qonto.Prelude.Int.{ℤ, pos, ◌-ℤ◌, ◌+ℤ◌}
use qonto.Go.Errors.{Result, ok, is_no_rows}
use qonto.Go.Action.{Action, pure}
use qonto.Go.Context.{Context, with_tx}
use qonto.Go.Int64.{add64}
use qonto.Model.Transfer.{total_cents, sum_from}
use qonto.Database.Schema.{status_of, balance_of}
use qonto.Service.Submit.{
  Response, respond, response_body_for, status_created, status_insufficient_funds,
  submit_bulk_transfer,
}
use qonto.Store.Session.{db}
use qonto.Store.Idempotency.{advisory_lock, find_idempotency_record_status, record_idempotency}
use qonto.Store.Accounts.{find_account_for_update, debit_account, insert_batch}
use qonto.Store.Transactions.{insert_transactions, copy_row}
use qonto.Service.Contract.{Settled, RepositoryLaws}
use qonto.Service.Contract.Rules.{May-pure}
use qonto.Service.Outcome.{Submitted}
use qonto.Txn.{Exit, panicked, atomic, atomic_exit}
use qonto.Program.Runs.{Ran, none_yet, and_then, runs_balance, runs_book_once, submission_posts}
use qonto.Service.Funds.{IsSound, Balances}
use qonto.Service.Batches.{IsBooked}
use qonto.Service.Verdict.{Posted, verdict}
use qonto.Txn.Laws.{view, atomic-Settled, atomic_exit_panics}
use qonto.Store.Laws.{repository, repository-RepositoryLaws}
use qonto.Program.{submit, submit_settles}
use qonto.Program.Memory.{MemoryState, memory}
use qonto.Program.Memory.Returns.{submit_returns}
use qonto.Program.Memory.Laws.{memory-IsPostgres}
use qonto.Tests.Sample.{affordable, opened, unaffordable, ready, no_context}

submit_settles_example :
    Settled
      (view memory)
      ready
      (Submitted affordable opened)
      (submit memory no_context affordable ready)
submit_settles_example = submit_settles memory memory-IsPostgres no_context affordable ready

repository-RepositoryLaws_example : RepositoryLaws (view memory) (repository memory)
repository-RepositoryLaws_example = repository-RepositoryLaws memory memory-IsPostgres

abbrev five : Context → Action MemoryState ℕ
five ctx = pure 5

atomic-Settled_example :
    Settled
      (view memory)
      ready
      (λ n t. (n ≡ 5) × (t ≡ opened))
      (atomic memory no_context five ready)
atomic-Settled_example =
    atomic-Settled memory memory-IsPostgres no_context five ready (λ n t. (n ≡ 5) × (t ≡ opened))
      (λ s1 now c a. May-pure (view memory) s1 5 (refl, now))

abbrev explode : Context → MemoryState → Exit ℕ × MemoryState
explode ctx s = (panicked "boom", s)

atomic_exit_panics_example :
    ((memory.begin ready).0 ≡ none
      → (explode (with_tx no_context) (memory.begin ready).1).0 ≡ panicked "boom"
      → atomic_exit memory no_context explode ready ≡ (
        panicked "boom",
        (memory.rollback (explode (with_tx no_context) (memory.begin ready).1).1).1,
      ))
    × ((atomic_exit memory no_context explode ready).0 ≡ panicked "boom"
        → memory.committed (atomic_exit memory no_context explode ready).1 ≡ opened)
atomic_exit_panics_example =
    atomic_exit_panics memory memory-IsPostgres no_context explode ready "boom" (λ c s1. refl)

-- The response of a run, and the status of each key and the balance behind it.
abbrev seen : Result Response × MemoryState → Result Response × (Option ℤ × (Option ℤ × Option ℤ))
seen (r, s) = (
  r,
  (
    status_of "k1" s.committed.tables.keys,
    (status_of "k2" s.committed.tables.keys, balance_of (pos 1) s.committed.tables.accounts),
  ),
)

first_run : seen (submit memory no_context affordable ready) ≡ (
  ok (record { status_code = status_created; body = none }),
  (some (pos 204), (none, some (pos 3874750))),
)
unfolding submit_bulk_transfer advisory_lock find_idempotency_record_status record_idempotency
    find_account_for_update debit_account insert_batch insert_transactions copy_row atomic
    total_cents sum_from add64 response_body_for db is_no_rows ◌-ℤ◌
first_run = refl

refused_run :
    seen (submit memory no_context unaffordable ready)
    ≡ (ok (respond status_insufficient_funds), (none, (some (pos 422), some (pos 10000000))))
unfolding submit_bulk_transfer advisory_lock find_idempotency_record_status record_idempotency
    find_account_for_update debit_account insert_batch insert_transactions copy_row atomic
    total_cents sum_from add64 response_body_for db is_no_rows ◌-ℤ◌
refused_run = refl

submit_returns_example :
    (submit memory no_context affordable ready).0 ≡ ok (respond (verdict affordable opened))
unfolding total_cents sum_from add64
submit_returns_example = submit_returns no_context affordable ready (omega arith)

abbrev after_one : MemoryState
after_one = (submit memory no_context affordable ready).1

abbrev after_two : MemoryState
after_two = (submit memory no_context unaffordable after_one).1

two_runs : Ran memory ready after_two
two_runs = and_then (and_then none_yet no_context affordable) no_context unaffordable

runs_balance_example :
    IsSound after_two.committed.tables × Balances (pos 1) (pos 10000000) after_two.committed.tables
unfolding ◌+ℤ◌
runs_balance_example =
    runs_balance memory memory-IsPostgres (pos 1) (pos 10000000) two_runs
      ((refl, tt), (omega arith, tt)) (pos 10000000, refl, refl)

runs_book_once_example : IsBooked after_two.committed.tables
runs_book_once_example = runs_book_once memory memory-IsPostgres two_runs (λ k. refl)

returned_one : submit memory no_context affordable ready ≡ (ok (respond status_created), after_one)
unfolding total_cents sum_from add64
returned_one = ap (λ r. (r, after_one)) (submit_returns no_context affordable ready (omega arith))

submission_posts_example : Posted affordable opened after_one.committed.tables
unfolding ◌+ℤ◌
submission_posts_example =
    submission_posts memory memory-IsPostgres no_context affordable ready after_one
      (respond status_created) (refl, tt) (omega arith, omega arith) refl returned_one refl
