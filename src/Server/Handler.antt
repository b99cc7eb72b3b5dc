-- ===== src/Server/Handler.antt =====
-- internal/transfer/server/handler.go
use qonto.Prelude.{ℕ, String, Bytes, Bool, Option, none, some, List, []}
use qonto.Prelude.Int.{ℤ, pos}
use qonto.Go.Errors.{Error, Result, ok, err, error_of}
use qonto.Go.Action.{Action}
use qonto.Go.Context.{Context}
use qonto.Model.Transfer.{BulkTransferRequest}
use qonto.Service.Submit.{Response}
use qonto.Service.History.{TransactionHistoryPage}
use qonto.Server.Dto.{
  BulkTransferRequestDto, Converted, done, refused, validate_amount, to_domain_request,
}
use qonto.Server.Metrics.{Metric, record_rejection, record_outcome}
use qonto.Server.Response.{
  Body, empty, amount_error, stored, Written, write_error, ValidationError, format_validation_error,
}

-- The business layer, as the handler sees it.
pub record Service (S : Type 0) : Type 0 where
  pub submit_bulk_transfer : Context → BulkTransferRequest → Action S Response
  pub list_transaction_history : Context → ℤ → Bytes → ℕ → Action S TransactionHistoryPage

-- What Go's library and the validator do: read a JSON text, hash a body, and check the tags of the
-- DTOs, given the test of the tag "amount".
pub record Library : Type 0 where
  pub unmarshal : Bytes → Option BulkTransferRequestDto
  pub hash_body : Bytes → String
  pub validate : (Bytes → Bool) → BulkTransferRequestDto → Option ValidationError

-- A body that cannot be read is `none`.
pub record SubmitRequest : Type 0 where
  pub ctx : Context
  pub body : Option Bytes
  pub idempotency_key : String

-- What one request does: the response, the metrics, the error that is recorded on its span, and the
-- state it leaves.
pub record Handled (S : Type 0) : Type 0 where
  pub written : Written
  pub metrics : List Metric
  pub failure : Option Error
  pub state : S

abbrev pub body_of : Option String → Body
body_of none = empty
body_of (some text) = stored text

unfoldable pub reply : Result Response → Written
unfolding write_error
reply (err _) = write_error (pos 500) "internal error" []
reply (ok result) = record { status = result.status_code; body = body_of result.body }

module _ {S : Type 0} where
  unfoldable pub reject : Written → S → Handled S
  unfolding record_rejection
  reject written s = record {
    written = written;
    metrics = record_rejection;
    failure = none;
    state = s;
  }

  module _ (lib : Library) (svc : Service S) where
    -- From the converted request on.
    unfoldable pub submit_converted : Context → Converted BulkTransferRequest → S → Handled S
    unfolding reject reply
    submit_converted ctx (refused e) s =
        reject (record { status = pos 400; body = amount_error e }) s
    submit_converted ctx (done req) s =
        let (result, s') = svc.submit_bulk_transfer ctx req s in
        record {
          written = reply result;
          metrics = record_outcome req result;
          failure = error_of result;
          state = s';
        }

    -- From the validator's answer on.
    unfoldable pub submit_checked :
        SubmitRequest → Bytes → BulkTransferRequestDto → Option ValidationError → S → Handled S
    unfolding reject write_error format_validation_error submit_converted
    submit_checked r body dto (some e) s =
        let (msg, details) = format_validation_error e in
        reject (write_error (pos 400) msg details) s
    submit_checked r body dto none s =
        submit_converted r.ctx (to_domain_request lib.hash_body dto r.idempotency_key body) s

    -- From the decoded body on.
    unfoldable pub submit_decoded :
        SubmitRequest → Bytes → Option BulkTransferRequestDto → S → Handled S
    unfolding reject write_error submit_checked
    submit_decoded r body none s = reject (write_error (pos 400) "malformed JSON" []) s
    submit_decoded r body (some dto) s =
        submit_checked r body dto (lib.validate validate_amount dto) s

    unfoldable pub handle_submit_bulk_transfer : SubmitRequest → S → Handled S
    unfolding reject write_error submit_decoded
    handle_submit_bulk_transfer r s = elim r.body [
      | none ↦ reject (write_error (pos 400) "could not read request body" []) s
      | some body ↦ submit_decoded r body (lib.unmarshal body) s
    ]
