-- ===== src/Service/Verdict.antt =====
-- What a submission decides, and what an accepted batch posts.
use qonto.Prelude.{
  ◌≡◌, ◌≢◌, refl, sym, ap, ◌∙◌, Option, none, some, List, [], ◌∷◌, ◌++◌, map, arith, if◌then◌else◌,
}
use qonto.Prelude.Int.{ℤ, pos, ◌+ℤ◌, ◌-ℤ◌, ltb_ℤ}
use qonto.Go.Int64.{IsInt64}
use qonto.Model.Transfer.{Account, BulkTransferRequest, CreditTransfer, total_cents}
use qonto.Model.Transfer.Total.{exact_total, total_cents_exact}
use qonto.Database.Schema.{
  Tables, TransactionRow, status_of, account_of, balance_of, posting_of, IsKeyed,
}
use qonto.Database.Rows.{balance_of-debit}
use qonto.Service.Submit.{
  Response, respond, response_body_for, status_created, status_account_not_found,
  status_insufficient_funds,
}
use qonto.Service.Outcome.{Submitted, replayed, not_found, insufficient, created}
use qonto.Service.Refinement.{balance_of-account_of}

abbrev pub verdict_on_account : BulkTransferRequest → Option Account → ℤ
verdict_on_account req none = status_account_not_found
verdict_on_account req (some a) =
    if ltb_ℤ a.balance_cents (total_cents req) then status_insufficient_funds else status_created

abbrev pub verdict_on : BulkTransferRequest → Option ℤ → Option Account → ℤ
verdict_on req (some status) account = status
verdict_on req none account = verdict_on_account req account

-- The status that the tables call for.
abbrev pub verdict : BulkTransferRequest → Tables → ℤ
verdict req t =
    verdict_on req (status_of req.idempotency_key t.keys)
      (account_of req.organization_iban req.organization_bic t.accounts)

-- The response of a submission is a function of the tables it starts from: the recorded status if
-- there is one, else 404, 422 or 204 by the account and its funds, and the body goes with it.
pub Submitted-verdict :
    {req : BulkTransferRequest} {t t' : Tables} {r : Response}
    → Submitted req t r t'
    → r ≡ respond (verdict req t)
unfolding response_body_for
Submitted-verdict (replayed h) = rw h refl
Submitted-verdict (not_found fresh none_) = rw (fresh, none_) refl
Submitted-verdict (insufficient fresh known short) = rw (fresh, known, short) refl
Submitted-verdict (created account id rows fresh known funds _ _) = rw (fresh, known, funds) refl

-- A submission whose verdict is not 204 leaves the accounts, the batches and the transactions as
-- they are.
pub refused_moves_nothing :
    {req : BulkTransferRequest} {t t' : Tables} {r : Response}
    → verdict req t ≢ status_created
    → Submitted req t r t'
    → (t'.accounts ≡ t.accounts) × (t'.batches ≡ t.batches) × (t'.transactions ≡ t.transactions)
refused_moves_nothing why (replayed _) = (refl, refl, refl)
refused_moves_nothing why (not_found _ _) = (refl, refl, refl)
refused_moves_nothing why (insufficient _ _ _) = (refl, refl, refl)
refused_moves_nothing why (created account id rows fresh known funds _ _) =
    elim (why (rw (fresh, known, funds) refl)) [ ]

-- The amounts of rows.
abbrev pub amount_sum : List TransactionRow → ℤ
amount_sum [] = pos 0
amount_sum (r ∷ rs) = r.posting.amount_cents +ℤ amount_sum rs

amount_sum-map :
    (id batch : ℤ) (rows : List TransactionRow) (ts : List CreditTransfer)
    → map (λ (r : TransactionRow). r.posting) rows ≡ map (posting_of id batch) ts
    → amount_sum rows ≡ exact_total ts
amount_sum-map id batch [] [] h = refl
amount_sum-map id batch [] (t ∷ ts) h = cc
amount_sum-map id batch (r ∷ rows) [] h = cc
amount_sum-map id batch (r ∷ rows) (t ∷ ts) h =
    let rest : map (λ (r : TransactionRow). r.posting) rows ≡ map (posting_of id batch) ts = cc in
    let same : r.posting ≡ posting_of id batch t = cc in
    rw (same, amount_sum-map id batch rows ts rest) refl

-- What an accepted batch leaves: one new batch, one row for each transfer, in their order, the key
-- with 204, and an account that has lost the rows' amounts, which add up to the batch's total.
abbrev pub Posted : BulkTransferRequest → Tables → Tables → Type 0
Posted req t t' =
    (account : Account) × (batch : ℤ) × (rows : List TransactionRow) × (account_of
        req.organization_iban req.organization_bic t.accounts
      ≡ some account)
    × (t'.transactions ≡ t.transactions ++ rows)
    × (map (λ (r : TransactionRow). r.posting) rows
        ≡ map (posting_of account.id batch) req.credit_transfers)
    × (t'.batches
        ≡ record {
          id = batch;
          bank_account_id = account.id;
          idempotency_key = req.idempotency_key;
          total_amount_cents = amount_sum rows;
        }
          ∷ t.batches)
    × (t'.keys ≡ record { key = req.idempotency_key; response_status = status_created } ∷ t.keys)
    × (balance_of account.id t'.accounts ≡ some (account.balance_cents -ℤ amount_sum rows))

-- Where account ids are unique and the exact sum of the amounts fits an int64, a submission under a
-- fresh key with verdict 204 posts its batch.
pub accepted_posts :
    {req : BulkTransferRequest} {t t' : Tables} {r : Response}
    → IsKeyed t.accounts
    → IsInt64 (exact_total req.credit_transfers)
    → status_of req.idempotency_key t.keys ≡ none
    → verdict req t ≡ status_created
    → Submitted req t r t'
    → Posted req t t'
accepted_posts keyed fits new v (replayed h) = cc (new, h)
accepted_posts keyed fits new v (not_found fresh missing) =
    let bad : status_account_not_found ≡ status_created = sym (rw (fresh, missing) refl) ∙ v in
    ground arith
accepted_posts keyed fits new v (insufficient fresh known short) =
    let bad : status_insufficient_funds ≡ status_created =
      sym (rw (fresh, known, short) refl) ∙ v in
    ground arith
accepted_posts {req} {t} keyed fits new v (created account batch rows fresh known funds _ posted) =
    let same : total_cents req ≡ amount_sum rows =
      total_cents_exact req fits
      ∙ sym (amount_sum-map account.id batch rows req.credit_transfers posted) in
    (
      account,
      batch,
      rows,
      known,
      refl,
      posted,
      ap
          (λ total.
            record {
              id = batch;
              bank_account_id = account.id;
              idempotency_key = req.idempotency_key;
              total_amount_cents = total;
            }
            ∷ t.batches)
          same,
      refl,
      balance_of-debit account.id (total_cents req) t.accounts (
            balance_of-account_of req.organization_iban req.organization_bic t.accounts keyed known)
          ∙ ap (λ x. some (account.balance_cents -ℤ x)) same,
    )
