-- ===== src/Server/Response.antt =====
-- internal/transfer/server/response.go: what is written to the client. The JSON text of a value is
-- left to encoding/json, so a body is the value that is encoded.
use Prim.Native.String.{◌++◌ as ◌<>◌}
use qonto.Prelude.{String, Bytes, Bool, List, [], map}
use qonto.Prelude.Int.{ℤ}
use qonto.Model.Money.{AmountError}

pub record TransactionHistoryItemDto : Type 0 where
  pub id : ℤ
  pub counterparty_name : String
  pub counterparty_iban : String
  pub counterparty_bic : String
  pub amount : Bytes
  pub currency : String
  pub description : String
  pub created_at : String

pub record TransactionHistoryResponseDto : Type 0 where
  pub data_ : List TransactionHistoryItemDto
  pub next_cursor : Bytes
  pub has_more : Bool

-- `error_response` has a message and details; `amount_error` is the text of an amount's error;
-- `stored` is a body that the service gives as it is.
pub data Body : Type 0 where
  empty : Body
  error_response : String → List String → Body
  amount_error : AmountError → Body
  stored : String → Body
  history : TransactionHistoryResponseDto → Body

pub record Written : Type 0 where
  pub status : ℤ
  pub body : Body

unfoldable pub write_error : ℤ → String → List String → Written
write_error status msg details = record { status = status; body = error_response msg details }

-- What `Namespace()` and `Tag()` say of a field that failed.
pub record FieldError : Type 0 where
  pub namespace : String
  pub tag : String

-- `invalid` is an error of the validator that is no list of fields.
pub data ValidationError : Type 0 where
  fields : List FieldError → ValidationError
  invalid : ValidationError

-- A tag has no character that `%q` escapes.
unfoldable pub describe : FieldError → String
describe f = f.namespace <> ": failed \"" <> f.tag <> "\" validation"

unfoldable pub format_validation_error : ValidationError → String × List String
unfolding describe
format_validation_error invalid = ("validation failed", [])
format_validation_error (fields fs) = ("validation failed", map describe fs)
