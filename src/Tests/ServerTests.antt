-- ===== src/Tests/ServerTests.antt =====
-- Requests as the handlers see them.
use qonto.Prelude.{
  ℕ, suc, String, ◌≡◌, ◌≢◌, refl, ◌⊎◌, none, some, [], ◌∷◌, All, length, codes, Bool, true, false,
  if◌then◌else◌,
}
use qonto.Go.Int64.{times_100, add64}
use qonto.Go.Strings.{cut}
use qonto.Go.Strconv.{parse_int, parse_uint, scan}
use qonto.Go.Errors.{ok}
use qonto.Go.Action.{pure}
use qonto.Model.Money.{parse_amount_cents}
use qonto.Model.Transfer.{BulkTransferRequest}
use qonto.Model.Transfer.Total.{IsPayable}
use qonto.Service.Submit.{respond, status_created}
use qonto.Service.History.{page_of}
use qonto.Server.Dto.{BulkTransferRequestDto, done, validate_amount, to_domain_request}
use qonto.Server.Handler.{Service, Library, SubmitRequest, handle_submit_bulk_transfer}
use qonto.Server.HistoryHandler.{HistoryRequest, handle_list_transaction_history}
use qonto.Server.Rejection.{IsRejected, IsSubmitted, to_domain_request_valid, handle_submit_cases}
use qonto.Server.HistoryCases.{IsBadRequest, IsListed, handle_list_cases}
use qonto.Server.Tags.{conforms, transfer_conforms}
use qonto.Server.Tags.Decision.{IsVerdict, HonoursTags, IsForwarded, handle_submit_decision}
use qonto.Server.Response.{ValidationError}
use qonto.Tests.Sample.{no_context, items}

abbrev sent : BulkTransferRequestDto
sent = record {
  organization_bic = "OIVUSCLQXXX";
  organization_iban = "FR10474608000002006107";
  credit_transfers =
      record {
        amount = codes "14.50";
        currency = "EUR";
        counterparty_name = "Bip Bip";
        counterparty_bic = "CRLYFRPPTOU";
        counterparty_iban = "EE383680981021245685";
        description = "Wonderland";
      }
      ∷ [];
}

-- A library that reads every body as `sent` and finds nothing wrong with it.
abbrev lenient : Library
lenient = record { unmarshal = λ _. some sent; hash_body = λ _. "hash"; validate = λ _ _. none }

-- A business layer that counts the submissions.
abbrev counting : Service ℕ
counting = record {
  submit_bulk_transfer = λ _ _ n. (ok (respond status_created), suc n);
  list_transaction_history = λ _ _ _ limit. pure (page_of limit items);
}

abbrev no_header : String
no_header = ""

to_domain_request_valid_run :
    (req : BulkTransferRequest) × (to_domain_request (λ _. "hash") sent no_header (codes "{}")
      ≡ done req)
    × All IsPayable req.credit_transfers
    × (length req.credit_transfers ≡ 1)
    × (no_header ≢ "" → req.idempotency_key ≡ no_header)
    × (no_header ≡ "" → req.idempotency_key ≡ "hash")
unfolding validate_amount parse_amount_cents cut parse_int parse_uint scan times_100 add64
to_domain_request_valid_run =
    to_domain_request_valid (λ _. "hash") sent no_header (codes "{}") (refl, tt)

abbrev submission : SubmitRequest
submission = record { ctx = no_context; body = some (codes "{}"); idempotency_key = "k1" }

handle_submit_cases_example :
    IsRejected lenient counting 0 (handle_submit_bulk_transfer lenient counting submission 0)
    ⊎ IsSubmitted lenient counting no_context 0
        (handle_submit_bulk_transfer lenient counting submission 0)
handle_submit_cases_example = handle_submit_cases lenient counting submission 0

-- A library whose validator goes by the tags.
abbrev strict : Library
strict = record {
  unmarshal = λ _. some sent;
  hash_body = λ _. "hash";
  validate = λ amount dto. if conforms amount dto then none else some ValidationError.invalid;
}

answer-IsVerdict : (b : Bool) → IsVerdict b (if b then none else some ValidationError.invalid)
answer-IsVerdict true = refl
answer-IsVerdict false = (ValidationError.invalid, refl)

strict-HonoursTags : HonoursTags strict
strict-HonoursTags amount dto = answer-IsVerdict (conforms amount dto)

handle_submit_decision_example :
    IsForwarded strict counting submission
      (codes "{}")
      sent
      0
      (handle_submit_bulk_transfer strict counting submission 0)
unfolding conforms transfer_conforms validate_amount parse_amount_cents cut parse_int parse_uint
    scan times_100 add64
handle_submit_decision_example =
    handle_submit_decision strict counting strict-HonoursTags submission (codes "{}") sent 0 refl
      refl

abbrev listing : HistoryRequest
listing = record { ctx = no_context; id = codes "1"; limit = codes "2"; cursor = [] }

handle_list_cases_example :
    IsBadRequest
      (λ _. "then")
      counting
      0
      (handle_list_transaction_history (λ _. "then") counting listing 0)
    ⊎ IsListed
        (λ _. "then")
        counting
        listing
        0
        (handle_list_transaction_history (λ _. "then") counting listing 0)
handle_list_cases_example = handle_list_cases (λ _. "then") counting listing 0
