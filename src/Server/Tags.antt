-- ===== src/Server/Tags.antt =====
-- The `validate` tags of internal/transfer/server/dto.go: what a body must have that they accept.
pub mod Decision
use text.Mathlib.Text.{◌==◌}
use qonto.Prelude.{String, Bool, true, false, not, ◌&&◌, Bytes, List, [], ◌∷◌}
use qonto.Server.Dto.{CreditTransferDto, BulkTransferRequestDto}

-- The tag "required" on a text, and on a text that is read as bytes: it is not empty.
abbrev required : String → Bool
required s = not (s == "")

abbrev required_bytes : Bytes → Bool
required_bytes [] = false
required_bytes (_ ∷ _) = true

-- `amount` is the test that is registered under the tag "amount".
module _ (amount : Bytes → Bool) where
  unfoldable pub transfer_conforms : CreditTransferDto → Bool
  transfer_conforms t =
      amount t.amount
      && (required_bytes t.amount
          && (t.currency == "EUR"
              && (required t.currency
                  && (required t.counterparty_name
                      && (required t.counterparty_bic && required t.counterparty_iban)))))

  -- The tag "dive": every transfer conforms.
  abbrev pub all_conform : List CreditTransferDto → Bool
  all_conform [] = true
  all_conform (t ∷ ts) = transfer_conforms t && all_conform ts

  -- The tags "required,min=1,dive" of the transfers.
  abbrev pub some_conform : List CreditTransferDto → Bool
  some_conform [] = false
  some_conform (t ∷ ts) = all_conform (t ∷ ts)

  unfoldable pub conforms : BulkTransferRequestDto → Bool
  conforms dto =
      some_conform dto.credit_transfers
      && (required dto.organization_bic && required dto.organization_iban)
