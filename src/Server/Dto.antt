-- ===== src/Server/Dto.antt =====
-- internal/transfer/server/dto.go, validate.go, and toDomainRequest of handler.go
use text.Mathlib.Text.{◌==◌}
use qonto.Prelude.{String, Bool, true, false, Bytes, List, [], ◌∷◌, if◌then◌else◌}
use qonto.Prelude.Int.{ℤ}
use qonto.Model.Money.{AmountError, Parsed, ok, err, parse_amount_cents}
use qonto.Model.Transfer.{CreditTransfer, BulkTransferRequest}

pub record CreditTransferDto : Type 0 where
  pub amount : Bytes
  pub currency : String
  pub counterparty_name : String
  pub counterparty_bic : String
  pub counterparty_iban : String
  pub description : String

pub record BulkTransferRequestDto : Type 0 where
  pub organization_bic : String
  pub organization_iban : String
  pub credit_transfers : List CreditTransferDto

abbrev pub parsed_ok : Parsed → Bool
parsed_ok (ok _) = true
parsed_ok (err _) = false

-- The test behind the tag "amount".
unfoldable pub validate_amount : Bytes → Bool
validate_amount s = parsed_ok (parse_amount_cents s)

pub data Converted (A : Type 0) : Type 0 where
  done : A → Converted A
  refused : AmountError → Converted A

abbrev pub transfer_of : CreditTransferDto → ℤ → CreditTransfer
transfer_of t cents = record {
  amount_cents = cents;
  currency = t.currency;
  counterparty_name = t.counterparty_name;
  counterparty_bic = t.counterparty_bic;
  counterparty_iban = t.counterparty_iban;
  description = t.description;
}

abbrev pub prepend :
    CreditTransfer → Converted (List CreditTransfer) → Converted (List CreditTransfer)
prepend x (done xs) = done (x ∷ xs)
prepend x (refused e) = refused e

-- One round of the loop, on the parsed amount and what the later rounds give.
abbrev pub convert :
    CreditTransferDto → Parsed → Converted (List CreditTransfer) → Converted (List CreditTransfer)
convert t (ok cents) rest = prepend (transfer_of t cents) rest
convert t (err e) rest = refused e

-- The loop over the transfers: the first amount that fails is the error.
unfoldable pub to_transfers : List CreditTransferDto → Converted (List CreditTransfer)
to_transfers [] = done []
to_transfers (t ∷ ts) = convert t (parse_amount_cents t.amount) (to_transfers ts)

-- `return model.BulkTransferRequest{...}, nil`, or the error of the loop.
abbrev pub request_of :
    BulkTransferRequestDto
    → String
    → Converted (List CreditTransfer)
    → Converted BulkTransferRequest
request_of dto key (refused e) = refused e
request_of dto key (done transfers) = done (record {
  organization_bic = dto.organization_bic;
  organization_iban = dto.organization_iban;
  credit_transfers = transfers;
  idempotency_key = key;
})

-- `hash_body` is SHA-256 in hexadecimal, from Go's library.
module _ (hash_body : Bytes → String) where
  unfoldable pub idempotency_key_of : String → Bytes → String
  idempotency_key_of header_key raw_body =
      if header_key == "" then hash_body raw_body else header_key

  unfoldable pub to_domain_request :
      BulkTransferRequestDto → String → Bytes → Converted BulkTransferRequest
  to_domain_request dto header_key raw_body =
      request_of dto (idempotency_key_of header_key raw_body) (to_transfers dto.credit_transfers)
