-- ===== src/Service/Task.antt =====
-- `SubmitBulkTransfer` as the calls that it makes of its repository, one after the other.
pub mod Equivalence
use qonto.Prelude.{String, Option, none, some, List, if◌then◌else◌}
use qonto.Prelude.Int.{ℤ, pos, ltb_ℤ, leb_ℤ}
use qonto.Go.Errors.{Error, other}
use qonto.Go.Action.{Action, pure, fail, ◌>>=◌}
use qonto.Go.Context.{Context, with_phase}
use qonto.Model.Transfer.{Account, BulkTransferRequest, CreditTransfer, total_cents}
use qonto.Service.Interfaces.{Repository}
use qonto.Service.Submit.{
  Response, respond, status_created, status_account_not_found, status_insufficient_funds,
}

-- A call of a repository inside the transaction.
pub data Call : Type 0 where
  take_lock : Context → String → Call
  read_status : Context → String → Call
  read_account : Context → String → String → Call
  write_batch : Context → ℤ → String → ℤ → Call
  write_transactions : Context → ℤ → ℤ → List CreditTransfer → Call
  write_debit : Context → ℤ → ℤ → Call
  write_key : Context → String → ℤ → Call

abbrev pub Answer : Call → Type 0
Answer (take_lock _ _) = Unit
Answer (read_status _ _) = Option ℤ
Answer (read_account _ _ _) = Option Account
Answer (write_batch _ _ _ _) = ℤ
Answer (write_transactions _ _ _ _) = Unit
Answer (write_debit _ _ _) = ℤ
Answer (write_key _ _ _) = Unit

-- What is left to do: return, fail, or make a call and go on with its answer.
pub data Task (A : Type 0) : Type 0 where
  done : A → Task A
  stop : Error → Task A
  call : (c : Call) → (Answer c → Task A) → Task A

abbrev pub recorded_task : Context → BulkTransferRequest → Response → Task Response
recorded_task ctx req r = call (write_key ctx req.idempotency_key r.status_code) (λ _. done r)

abbrev pub debited_task : Context → BulkTransferRequest → ℤ → Task Response
debited_task ctx req new_balance =
    if leb_ℤ (pos 0) new_balance
    then recorded_task ctx req (record { status_code = status_created; body = none })
    else stop (other "balance invariant violated")

abbrev pub posted_task : Context → BulkTransferRequest → Account → Task Response
posted_task ctx req account =
    call (write_debit ctx account.id (total_cents req)) (debited_task ctx req)

abbrev pub inserted_task : Context → BulkTransferRequest → Account → ℤ → Task Response
inserted_task ctx req account batch_id =
    call (write_transactions ctx account.id batch_id req.credit_transfers)
      (λ _. posted_task ctx req account)

abbrev pub persist_task : Context → BulkTransferRequest → Account → Task Response
persist_task ctx req account =
    call (write_batch ctx account.id req.idempotency_key (total_cents req))
      (inserted_task ctx req account)

abbrev pub resolved_task : Context → BulkTransferRequest → Option Account → Task Response
resolved_task ctx req none = recorded_task ctx req (respond status_account_not_found)
resolved_task ctx req (some account) =
    if ltb_ℤ account.balance_cents (total_cents req)
    then recorded_task ctx req (respond status_insufficient_funds)
    else persist_task (with_phase ctx "persist_batch") req account

abbrev pub checked_task : Context → BulkTransferRequest → Option ℤ → Task Response
checked_task ctx req (some status) = done (respond status)
checked_task ctx req none =
    let resolving = with_phase ctx "resolve_account" in
    call (read_account resolving req.organization_iban req.organization_bic)
      (resolved_task resolving req)

abbrev pub locked_task : Context → BulkTransferRequest → Task Response
locked_task ctx req = call (read_status ctx req.idempotency_key) (checked_task ctx req)

abbrev pub submit_task : BulkTransferRequest → Context → Task Response
submit_task req ctx =
    let checking = with_phase ctx "check_idempotency" in
    call (take_lock checking req.idempotency_key) (λ _. locked_task checking req)

module _ {S : Type 0} (repo : Repository S) where
  abbrev pub perform : (c : Call) → Action S (Answer c)
  perform (take_lock ctx k) = repo.advisory_lock ctx k
  perform (read_status ctx k) = repo.find_idempotency_record_status ctx k
  perform (read_account ctx iban bic) = repo.find_account_for_update ctx iban bic
  perform (write_batch ctx id k total) = repo.insert_batch ctx id k total
  perform (write_transactions ctx id batch ts) = repo.insert_transactions ctx id batch ts
  perform (write_debit ctx id amount) = repo.debit_account ctx id amount
  perform (write_key ctx k status) = repo.record_idempotency ctx k status

  -- A task, call by call, on a repository.
  abbrev pub run : {A : Type 0} → Task A → Action S A
  run (done a) = pure a
  run (stop e) = fail e
  run (call c k) = perform c >>= λ a. run (k a)
