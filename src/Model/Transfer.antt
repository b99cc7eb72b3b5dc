-- ===== src/Model/Transfer.antt =====
-- internal/transfer/model/transfer.go: requests, accounts and the total of a batch.
pub mod Total
use qonto.Prelude.{ℕ, String, List, [], ◌∷◌}
use qonto.Prelude.Int.{ℤ, pos}
use qonto.Go.Int64.{add64}

pub record CreditTransfer : Type 0 where
  pub amount_cents : ℤ
  pub currency : String
  pub counterparty_name : String
  pub counterparty_bic : String
  pub counterparty_iban : String
  pub description : String

pub record BulkTransferRequest : Type 0 where
  pub organization_bic : String
  pub organization_iban : String
  pub credit_transfers : List CreditTransfer
  pub idempotency_key : String

pub record Account : Type 0 where
  pub id : ℤ
  pub organization_name : String
  pub balance_cents : ℤ
  pub iban : String
  pub bic : String

-- `total += t.AmountCents`, for each transfer
unfoldable pub sum_from : ℤ → List CreditTransfer → ℤ
sum_from total [] = total
sum_from total (t ∷ ts) = sum_from (add64 total t.amount_cents) ts

unfoldable pub total_cents : BulkTransferRequest → ℤ
total_cents r = sum_from (pos 0) r.credit_transfers
