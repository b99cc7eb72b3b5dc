-- ===== src/Server/Metrics.antt =====
-- internal/transfer/server/metrics.go: what a request adds to the counters, in order.
use qonto.Prelude.{ℕ, String, List, [], ◌∷◌, length, if◌then◌else◌}
use qonto.Prelude.Int.{ℤ, eqb_ℤ}
use qonto.Go.Errors.{Result, ok, err}
use qonto.Model.Transfer.{BulkTransferRequest, total_cents}
use qonto.Service.Submit.{
  Response, status_created, status_account_not_found, status_insufficient_funds,
}

pub data Metric : Type 0 where
  bulk_transfers_total : String → Metric
  transfer_amount_cents_total : ℤ → Metric
  batch_size : ℕ → Metric

unfoldable pub record_rejection : List Metric
record_rejection = bulk_transfers_total "invalid_payload" ∷ []

unfoldable pub outcome_status : Result Response → String
outcome_status (err _) = "server_error"
outcome_status (ok r) =
    if eqb_ℤ r.status_code status_created
    then "success"
    else if eqb_ℤ r.status_code status_insufficient_funds
    then "insufficient_funds"
    else if eqb_ℤ r.status_code status_account_not_found
    then "account_not_found"
    else "server_error"

-- With an error the result is the zero `Result`, whose status is 0.
unfoldable pub moved : BulkTransferRequest → Result Response → List Metric
moved req (err _) = []
moved req (ok r) =
    if eqb_ℤ r.status_code status_created
    then transfer_amount_cents_total (total_cents req) ∷ []
    else []

unfoldable pub record_outcome : BulkTransferRequest → Result Response → List Metric
unfolding outcome_status moved
record_outcome req result =
    batch_size (length req.credit_transfers)
    ∷ bulk_transfers_total (outcome_status result)
    ∷ moved req result
