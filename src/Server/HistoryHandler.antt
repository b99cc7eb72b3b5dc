-- ===== src/Server/HistoryHandler.antt =====
-- internal/transfer/server/history_handler.go
use qonto.Prelude.{ℕ, String, Bytes, Option, none, some, [], map, ◌||◌, if◌then◌else◌}
use qonto.Prelude.Int.{ℤ, pos, pos_part, leb_ℤ, ltb_ℤ}
use qonto.Go.Errors.{Result, ok, err, error_of}
use qonto.Go.Context.{Context}
use qonto.Go.Strconv.{parse_int}
use qonto.Go.Time.{Time}
use qonto.Model.Money.{is_empty, format_amount_cents}
use qonto.Model.Pagination.{TransactionHistoryItem}
use qonto.Service.History.{TransactionHistoryPage}
use qonto.Server.Response.{
  TransactionHistoryItemDto, TransactionHistoryResponseDto, history, Written, write_error,
}
use qonto.Server.Handler.{Service, Handled}

abbrev pub default_history_limit : ℕ
default_history_limit = 20

abbrev pub max_history_limit : ℕ
max_history_limit = 100

-- The path value "id" and the query values "limit" and "cursor".
pub record HistoryRequest : Type 0 where
  pub ctx : Context
  pub id : Bytes
  pub limit : Bytes
  pub cursor : Bytes

-- `strconv.Atoi` is `ParseInt` in base 10 on 64 bits.
abbrev pub limit_in_range : Option ℤ → Option ℕ
limit_in_range none = none
limit_in_range (some parsed) =
    if leb_ℤ parsed (pos 0) || ltb_ℤ (pos max_history_limit) parsed
    then none
    else some (pos_part parsed)

unfoldable pub limit_of : Bytes → Option ℕ
limit_of raw =
    if is_empty raw then some default_history_limit else limit_in_range (parse_int 64 raw)

-- `format_time` is `Format` of a time.Time, from Go's library.
module _ (format_time : Time → String) where
  unfoldable pub to_history_item_dto : TransactionHistoryItem → TransactionHistoryItemDto
  unfolding format_amount_cents
  to_history_item_dto item = record {
    id = item.id;
    counterparty_name = item.counterparty_name;
    counterparty_iban = item.counterparty_iban;
    counterparty_bic = item.counterparty_bic;
    amount = format_amount_cents item.amount_cents;
    currency = item.currency;
    description = item.description;
    created_at = format_time item.created_at;
  }

  unfoldable pub to_history_response_dto : TransactionHistoryPage → TransactionHistoryResponseDto
  unfolding to_history_item_dto
  to_history_response_dto page = record {
    data_ = map to_history_item_dto page.items;
    next_cursor = page.next_cursor;
    has_more = page.has_more;
  }

  unfoldable pub reply_page : Result TransactionHistoryPage → Written
  unfolding write_error to_history_response_dto
  reply_page (err _) = write_error (pos 500) "internal error" []
  reply_page (ok page) = record { status = pos 200; body = history (to_history_response_dto page) }

  module _ {S : Type 0} (svc : Service S) where
    abbrev pub bad_request : String → S → Handled S
    bad_request message s = record {
      written = write_error (pos 400) message [];
      metrics = [];
      failure = none;
      state = s;
    }

    unfoldable pub list_page : HistoryRequest → ℤ → Option ℕ → S → Handled S
    unfolding reply_page write_error
    list_page r account_id none s = bad_request "limit must be an integer between 1 and 100" s
    list_page r account_id (some limit) s =
        let (page, s') = svc.list_transaction_history r.ctx account_id r.cursor limit s in
        record { written = reply_page page; metrics = []; failure = error_of page; state = s' }

    -- From the parsed account id on.
    unfoldable pub list_account : HistoryRequest → Option ℤ → S → Handled S
    unfolding list_page write_error
    list_account r none s = bad_request "invalid account id" s
    list_account r (some account_id) s = list_page r account_id (limit_of r.limit) s

    unfoldable pub handle_list_transaction_history : HistoryRequest → S → Handled S
    unfolding list_account
    handle_list_transaction_history r s = list_account r (parse_int 64 r.id) s
