-- ===== src/Service/Submit.antt =====
-- internal/transfer/service/transfer.go, and checkBalanceInvariant of metrics.go
use Prim.Native.String.{◌++◌ as ◌<>◌}
use qonto.Prelude.{String, Option, none, some, if◌then◌else◌}
use qonto.Prelude.Int.{ℤ, pos, eqb_ℤ, leb_ℤ, ltb_ℤ}
use qonto.Go.Errors.{other}
use qonto.Go.Action.{Action, pure, fail, ◌>>=◌, ◌>>◌}
use qonto.Go.Context.{Context, with_phase}
use qonto.Model.Transfer.{Account, BulkTransferRequest, total_cents}
use qonto.Service.Interfaces.{Repository, Transactor}

abbrev pub status_created : ℤ
status_created = pos 204

abbrev pub status_account_not_found : ℤ
status_account_not_found = pos 404

abbrev pub status_insufficient_funds : ℤ
status_insufficient_funds = pos 422

-- The service's `Result`; a nil body is `none`.
pub record Response : Type 0 where
  pub status_code : ℤ
  pub body : Option String

-- The JSON of a message that needs no escape.
unfoldable pub encode_error : String → String
encode_error msg = "{\"error\":\"" <> msg <> "\"}"

unfoldable pub response_body_for : ℤ → Option String
unfolding encode_error
response_body_for status =
    if eqb_ℤ status status_account_not_found
    then some (encode_error "account not found")
    else if eqb_ℤ status status_insufficient_funds
    then some (encode_error "insufficient funds")
    else none

-- `Result{StatusCode: status, Body: responseBodyFor(status)}`
abbrev pub respond : ℤ → Response
respond status = record { status_code = status; body = response_body_for status }

unfoldable pub check_balance_invariant : {S : Type 0} → ℤ → ℤ → Action S (Unit {0})
check_balance_invariant account_id new_balance =
    if leb_ℤ (pos 0) new_balance then pure tt else fail (other "balance invariant violated")

module _ {S : Type 0} (repo : Repository S) where
  -- A result that is recorded under the request's key and returned.
  abbrev pub recorded : Context → BulkTransferRequest → Response → Action S Response
  recorded ctx req result =
      repo.record_idempotency ctx req.idempotency_key result.status_code >> pure result

  -- From `DebitAccount` on.
  unfoldable pub debit_batch : Context → BulkTransferRequest → Account → ℤ → Action S Response
  unfolding check_balance_invariant
  debit_batch ctx req account total = do
    new_balance ← repo.debit_account ctx account.id total
    check_balance_invariant account.id new_balance
    recorded ctx req (record { status_code = status_created; body = none })

  -- From `InsertTransactions` on.
  unfoldable pub post_batch : Context → BulkTransferRequest → Account → ℤ → ℤ → Action S Response
  unfolding debit_batch
  post_batch ctx req account total batch_id = do
    repo.insert_transactions ctx account.id batch_id req.credit_transfers
    debit_batch ctx req account total

  -- From `InsertBatch` on.
  unfoldable pub persist_batch : Context → BulkTransferRequest → Account → ℤ → Action S Response
  unfolding post_batch
  persist_batch ctx req account total = do
    batch_id ← repo.insert_batch ctx account.id req.idempotency_key total
    post_batch ctx req account total batch_id

  unfoldable pub with_account : Context → BulkTransferRequest → Option Account → Action S Response
  unfolding persist_batch
  with_account ctx req none = recorded ctx req (respond status_account_not_found)
  with_account ctx req (some account) =
      let total = total_cents req in
      if ltb_ℤ account.balance_cents total
      then recorded ctx req (respond status_insufficient_funds)
      else persist_batch (with_phase ctx "persist_batch") req account total

  unfoldable pub evaluate : Context → BulkTransferRequest → Option ℤ → Action S Response
  unfolding with_account
  evaluate ctx req (some status) = pure (respond status)
  evaluate ctx req none = do
    let resolving = with_phase ctx "resolve_account"
    account ← repo.find_account_for_update resolving req.organization_iban req.organization_bic
    with_account resolving req account

  -- The function that runs inside `Atomic`.
  unfoldable pub submit_body : BulkTransferRequest → Context → Action S Response
  unfolding evaluate
  submit_body req ctx = do
    let checking = with_phase ctx "check_idempotency"
    repo.advisory_lock checking req.idempotency_key
    status ← repo.find_idempotency_record_status checking req.idempotency_key
    evaluate checking req status

  unfoldable pub submit_bulk_transfer :
      Transactor S Response → Context → BulkTransferRequest → Action S Response
  unfolding submit_body
  submit_bulk_transfer txn ctx req = txn.atomic ctx (submit_body req)
