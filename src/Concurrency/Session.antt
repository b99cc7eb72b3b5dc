-- ===== src/Concurrency/Session.antt =====
-- One submission, a statement at a time (internal/transfer/service/transfer.go on
-- internal/transfer/store), against what is committed and what others have locked.
use qonto.Prelude.{◌≡◌, true, false, Bool, Option, none, some, List, map}
use qonto.Prelude.Int.{ℤ, pos, ◌-ℤ◌, ◌≤ℤ◌, ltb_ℤ, leb_ℤ}
use qonto.Model.Transfer.{Account, BulkTransferRequest, total_cents}
use qonto.Database.Schema.{
  Tables, TransactionRow, status_of, account_of, balance_of, add_key, posting_of,
}
use qonto.Service.Submit.{
  Response, respond, status_created, status_account_not_found, status_insufficient_funds,
}
use qonto.Service.Outcome.{accepted}

-- Where a submission stands, with what it has read and written in its transaction.
pub data Stage : Type 0 where
  opening : Stage  -- before `AdvisoryLock`
  locked : Stage  -- before `FindIdempotencyRecordStatus`
  replying : ℤ → Stage  -- a status was recorded; before the commit
  fresh : Stage  -- none was; before `FindAccountForUpdate`
  missing : Stage  -- no account; before `RecordIdempotency`
  located : Account → Stage  -- its row is locked; before the test of the balance
  inserted : Account → ℤ → Stage  -- before `InsertTransactions`
  posted : Account → ℤ → List TransactionRow → Stage  -- before `DebitAccount`
  debited : Account → ℤ → List TransactionRow → Stage  -- before `RecordIdempotency`
  settling_missing : Stage  -- before the commit
  settling_short : Account → Stage
  settling_created : Account → ℤ → List TransactionRow → Stage
  answered : Response → Stage  -- committed
  ended : Stage  -- rolled back

abbrev pub created_response : Response
created_response = record { status_code = status_created; body = none }

-- The advisory lock is held until the transaction ends.
abbrev pub holds_key : Stage → Bool
holds_key opening = false
holds_key (answered _) = false
holds_key ended = false
holds_key _ = true

-- The account whose row is locked, until the transaction ends.
abbrev pub held_row : Stage → Option Account
held_row (located a) = some a
held_row (inserted a _) = some a
held_row (posted a _ _) = some a
held_row (debited a _ _) = some a
held_row (settling_short a) = some a
held_row (settling_created a _ _) = some a
held_row _ = none

-- One statement of a submission. Under READ COMMITTED each reads what is committed by then, and
-- what a transaction has written itself is none of what it reads later, but for the row that
-- `DebitAccount` changes. `key_free` and `row_free` say that no other session holds the lock.
pub data Move (key_free : Type 0) (row_free : ℤ → Type 0) (t : Tables) (req : BulkTransferRequest)
    : Stage → Stage → Type 0 where
  take_key : key_free → Move key_free row_free t req opening locked
  read_status :
      {status : ℤ}
      → status_of req.idempotency_key t.keys ≡ some status
      → Move key_free row_free t req locked (replying status)
  read_none :
      status_of req.idempotency_key t.keys ≡ none → Move key_free row_free t req locked fresh
  find_none :
      account_of req.organization_iban req.organization_bic t.accounts ≡ none
      → Move key_free row_free t req fresh missing
  find_account :
      {a : Account}
      → account_of req.organization_iban req.organization_bic t.accounts ≡ some a
      → row_free a.id
      → Move key_free row_free t req fresh (located a)
  record_missing :
      status_of req.idempotency_key t.keys ≡ none
      → Move key_free row_free t req missing settling_missing
  record_short :
      {a : Account}
      → ltb_ℤ a.balance_cents (total_cents req) ≡ true
      → status_of req.idempotency_key t.keys ≡ none
      → Move key_free row_free t req (located a) (settling_short a)
  batch_written :
      {a : Account} (batch_id : ℤ)
      → ltb_ℤ a.balance_cents (total_cents req) ≡ false
      → pos 1 ≤ℤ total_cents req
      → Move key_free row_free t req (located a) (inserted a batch_id)
  transactions_written :
      {a : Account} {batch_id : ℤ} (rows : List TransactionRow)
      → map (λ (r : TransactionRow). r.posting) rows
        ≡ map (posting_of a.id batch_id) req.credit_transfers
      → Move key_free row_free t req (inserted a batch_id) (posted a batch_id rows)
  account_debited :
      {a : Account} {batch_id balance : ℤ} {rows : List TransactionRow}
      → balance_of a.id t.accounts ≡ some balance
      → leb_ℤ (pos 0) (balance -ℤ total_cents req) ≡ true
      → Move key_free row_free t req (posted a batch_id rows) (debited a batch_id rows)
  record_created :
      {a : Account} {batch_id : ℤ} {rows : List TransactionRow}
      → status_of req.idempotency_key t.keys ≡ none
      → Move key_free row_free t req (debited a batch_id rows) (settling_created a batch_id rows)

-- What a commit leaves, and the response that is then given.
pub data Commit (t : Tables) (req : BulkTransferRequest) : Stage → Response → Tables → Type 0 where
  commit_replay : {status : ℤ} → Commit t req (replying status) (respond status) t
  commit_missing :
      Commit t req settling_missing
        (respond status_account_not_found)
        (add_key req.idempotency_key status_account_not_found t)
  commit_short :
      {a : Account}
      → Commit t req
          (settling_short a)
          (respond status_insufficient_funds)
          (add_key req.idempotency_key status_insufficient_funds t)
  commit_created :
      {a : Account} {batch_id : ℤ} {rows : List TransactionRow}
      → Commit t req
          (settling_created a batch_id rows)
          created_response
          (accepted req a batch_id rows t)
