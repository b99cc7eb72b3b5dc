-- ===== src/Program/Memory/Returns.antt =====
-- On the engine in memory, where no statement fails but by a constraint, a submission returns.
use qonto.Prelude.{
  ◌≡◌, refl, ◌∙◌, ap, inl, inr, Bool-cases, true, false, Option-cases, none, some, arith,
}
use qonto.Prelude.Int.{ℤ, pos, ◌≤ℤ◌, ◌-ℤ◌, ltb_ℤ, leb_ℤ}
use qonto.Go.Errors.{ok, is_no_rows}
use qonto.Go.Context.{Context}
use qonto.Model.Transfer.{Account, BulkTransferRequest, total_cents}
use qonto.Database.Schema.{status_of, account_of, balance_of}
use qonto.Service.Submit.{respond, response_body_for, submit_bulk_transfer}
use qonto.Service.Refinement.{balance_of-account_of, funds_left}
use qonto.Service.Verdict.{verdict}
use qonto.Store.Session.{db, query_row, exec, read_row, read_done, scan_int}
use qonto.Store.Idempotency.{advisory_lock, find_idempotency_record_status, record_idempotency}
use qonto.Store.Accounts.{scan_account, find_account_for_update, debit_account, insert_batch}
use qonto.Store.Transactions.{insert_transactions, copy_row}
use qonto.Txn.{atomic, finish}
use qonto.Program.{submit}
use qonto.Program.Memory.{MemoryState, memory}

module _ (ctx : Context) (req : BulkTransferRequest) (s : MemoryState) where
  replays_in_memory :
      (n : ℤ)
      → status_of req.idempotency_key s.committed.tables.keys ≡ some n
      → (submit memory ctx req s).0 ≡ ok (respond n)
  unfolding submit_bulk_transfer advisory_lock find_idempotency_record_status atomic db finish
      query_row exec read_row read_done scan_int scan_account is_no_rows
  replays_in_memory n h = ground arith

  misses_in_memory :
      status_of req.idempotency_key s.committed.tables.keys ≡ none
      → account_of req.organization_iban req.organization_bic s.committed.tables.accounts ≡ none
      → (submit memory ctx req s).0 ≡ ok (respond (pos 404))
  unfolding submit_bulk_transfer advisory_lock find_idempotency_record_status
      find_account_for_update record_idempotency atomic db finish query_row exec read_row read_done
      scan_int scan_account is_no_rows
  misses_in_memory f h = ground arith

  refuses_in_memory :
      (a : Account)
      → status_of req.idempotency_key s.committed.tables.keys ≡ none
      → account_of req.organization_iban req.organization_bic s.committed.tables.accounts ≡ some a
      → ltb_ℤ a.balance_cents (total_cents req) ≡ true
      → (submit memory ctx req s).0 ≡ ok (respond (pos 422))
  unfolding submit_bulk_transfer advisory_lock find_idempotency_record_status
      find_account_for_update record_idempotency atomic db finish query_row exec read_row read_done
      scan_int scan_account is_no_rows
  refuses_in_memory a f h short = ground arith

  creates_in_memory :
      (a : Account)
      → status_of req.idempotency_key s.committed.tables.keys ≡ none
      → account_of req.organization_iban req.organization_bic s.committed.tables.accounts ≡ some a
      → ltb_ℤ a.balance_cents (total_cents req) ≡ false
      → leb_ℤ (pos 1) (total_cents req) ≡ true
      → balance_of a.id s.committed.tables.accounts ≡ some a.balance_cents
      → leb_ℤ (pos 0) (a.balance_cents -ℤ total_cents req) ≡ true
      → (submit memory ctx req s).0 ≡ ok (respond (pos 204))
  unfolding submit_bulk_transfer advisory_lock find_idempotency_record_status
      find_account_for_update record_idempotency insert_batch insert_transactions debit_account
      copy_row atomic db finish query_row exec read_row read_done scan_int scan_account is_no_rows
      response_body_for
  creates_in_memory a f h enough positive found left = ground arith

  -- A submission of a positive total to the engine in memory returns, with the response that the
  -- committed tables call for.
  pub submit_returns :
      pos 1 ≤ℤ total_cents req
      → (submit memory ctx req s).0 ≡ ok (respond (verdict req s.committed.tables))
  submit_returns positive =
      elim (Option-cases (status_of req.idempotency_key s.committed.tables.keys)) [
        | inr (n, h) ↦ replays_in_memory n h ∙ ap (λ n. ok (respond n)) (rw h refl)
        | inl fresh ↦
            elim (Option-cases
              (account_of req.organization_iban req.organization_bic s.committed.tables.accounts)) [
                | inl missing ↦
                    misses_in_memory fresh missing
                    ∙ ap (λ n. ok (respond n)) (rw (fresh, missing) refl)
                | inr (a, h) ↦ elim (Bool-cases (ltb_ℤ a.balance_cents (total_cents req))) [
                  | inl short ↦
                      refuses_in_memory a fresh h short
                      ∙ ap (λ n. ok (respond n)) (rw (fresh, h, short) refl)
                  | inr enough ↦
                      creates_in_memory a fresh h enough (ground arith)
                        (balance_of-account_of req.organization_iban req.organization_bic
                          s.committed.tables.accounts s.committed.keyed h)
                        (funds_left a.balance_cents (total_cents req)
                          (a.balance_cents -ℤ total_cents req) enough refl)
                      ∙ ap (λ n. ok (respond n)) (rw (fresh, h, enough) refl)
                ]
              ]
      ]
