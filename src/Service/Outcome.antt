-- ===== src/Service/Outcome.antt =====
-- The specification of a bulk transfer: how one submission may change the tables, and the
-- response that goes with each change.
use qonto.Prelude.{◌≡◌, false, none, some, List, map, true}
use qonto.Prelude.Int.{ℤ, pos, ltb_ℤ, ◌≤ℤ◌}
use qonto.Model.Transfer.{Account, BulkTransferRequest, total_cents}
use qonto.Database.Schema.{
  Tables, TransactionRow, status_of, account_of, add_key, add_batch, add_transactions, debit_in,
  posting_of,
}
use qonto.Service.Submit.{
  Response, respond, status_created, status_account_not_found, status_insufficient_funds,
}

-- The tables after an accepted batch.
abbrev pub accepted : BulkTransferRequest → Account → ℤ → List TransactionRow → Tables → Tables
accepted req account batch_id rows t = add_key req.idempotency_key status_created (
    debit_in account.id (total_cents req) (
      add_transactions rows (
        add_batch
          (record {
            id = batch_id;
            bank_account_id = account.id;
            idempotency_key = req.idempotency_key;
            total_amount_cents = total_cents req;
          })
          t)))

pub data Submitted (req : BulkTransferRequest) (t : Tables) : Response → Tables → Type 0 where
  replayed :
      {status : ℤ}
      → status_of req.idempotency_key t.keys ≡ some status
      → Submitted req t (respond status) t
  not_found :
      status_of req.idempotency_key t.keys ≡ none
      → account_of req.organization_iban req.organization_bic t.accounts ≡ none
      → Submitted req t
          (respond status_account_not_found)
          (add_key req.idempotency_key status_account_not_found t)
  insufficient :
      {account : Account}
      → status_of req.idempotency_key t.keys ≡ none
      → account_of req.organization_iban req.organization_bic t.accounts ≡ some account
      → ltb_ℤ account.balance_cents (total_cents req) ≡ true
      → Submitted req t
          (respond status_insufficient_funds)
          (add_key req.idempotency_key status_insufficient_funds t)
  created :
      (account : Account) (batch_id : ℤ) (rows : List TransactionRow)
      → status_of req.idempotency_key t.keys ≡ none
      → account_of req.organization_iban req.organization_bic t.accounts ≡ some account
      → ltb_ℤ account.balance_cents (total_cents req) ≡ false
      → pos 1 ≤ℤ total_cents req
      → map (λ (r : TransactionRow). r.posting) rows
        ≡ map (posting_of account.id batch_id) req.credit_transfers
      → Submitted req t
          (record { status_code = status_created; body = none })
          (accepted req account batch_id rows t)
