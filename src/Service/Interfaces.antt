-- ===== src/Service/Interfaces.antt =====
-- internal/transfer/service/interfaces.go: what the service needs, over an abstract state.
use qonto.Prelude.{ℕ, String, Option, List}
use qonto.Prelude.Int.{ℤ}
use qonto.Go.Action.{Action}
use qonto.Go.Context.{Context}
use qonto.Model.Transfer.{Account, CreditTransfer}
use qonto.Model.Pagination.{TransactionHistoryItem, Cursor}

-- A pair (value, found) is an `Option`.
pub record Repository (S : Type 0) : Type 0 where
  pub advisory_lock : Context → String → Action S (Unit {0})
  pub find_idempotency_record_status : Context → String → Action S (Option ℤ)
  pub record_idempotency : Context → String → ℤ → Action S (Unit {0})
  pub find_account_for_update : Context → String → String → Action S (Option Account)
  pub debit_account : Context → ℤ → ℤ → Action S ℤ
  pub insert_batch : Context → ℤ → String → ℤ → Action S ℤ
  pub insert_transactions : Context → ℤ → ℤ → List CreditTransfer → Action S (Unit {0})
  pub transaction_history_page : Context → ℤ → Cursor → ℕ → Action S (List TransactionHistoryItem)

-- `fn` returns what it leaves in a variable of the caller.
pub record Transactor (S A : Type 0) : Type 0 where
  pub atomic : Context → (Context → Action S A) → Action S A
