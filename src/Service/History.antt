-- ===== src/Service/History.antt =====
-- internal/transfer/service/history.go
pub mod Pages
pub mod Walk
pub mod Growing
use qonto.Prelude.{
  ℕ, suc, ◌+◌, String, Bool, true, false, Bytes, Option, none, some, List, [], ◌∷◌, length, take,
  last?, ltb, if◌then◌else◌,
}
use qonto.Prelude.Int.{ℤ}
use qonto.Go.Errors.{Error, Result, ok, err, wrap}
use qonto.Go.Action.{Action, pure, fail, ◌>>=◌}
use qonto.Go.Context.{Context, with_phase}
use qonto.Model.Pagination.{TransactionHistoryItem, Cursor, encode_cursor, decode_cursor}
use qonto.Service.Interfaces.{Repository}

pub record TransactionHistoryPage : Type 0 where
  pub items : List TransactionHistoryItem
  pub next_cursor : Bytes
  pub has_more : Bool

-- `model.Cursor{CreatedAt: last.CreatedAt, ID: last.ID}`
abbrev pub cursor_at : TransactionHistoryItem → Cursor
cursor_at item = record { created_at = item.created_at; id = item.id }

unfoldable pub next_cursor_of : Bool → List TransactionHistoryItem → Bytes
next_cursor_of has_more items =
    if has_more
    then elim (last? items) [ none ↦ [] | some last ↦ encode_cursor (cursor_at last) ]
    else []

-- From the fetched rows on.
unfoldable pub page_of : ℕ → List TransactionHistoryItem → TransactionHistoryPage
unfolding next_cursor_of
page_of limit fetched =
    let has_more = ltb limit (length fetched) in
    let items = if has_more then take limit fetched else fetched in
    record { items = items; next_cursor = next_cursor_of has_more items; has_more = has_more }

module _ {S : Type 0} (repo : Repository S) where
  -- From the decoded cursor on: one row more than `limit` is fetched.
  unfoldable pub list_from : Context → ℤ → ℕ → Result Cursor → Action S TransactionHistoryPage
  unfolding page_of
  list_from ctx account_id limit (err e) = fail (wrap "decode cursor" e)
  list_from ctx account_id limit (ok cursor) = do
    items ← repo.transaction_history_page ctx account_id cursor (limit + 1)
    pure (page_of limit items)

  unfoldable pub list_transaction_history :
      Context → ℤ → Bytes → ℕ → Action S TransactionHistoryPage
  unfolding list_from
  list_transaction_history ctx account_id cursor_str limit =
      list_from (with_phase ctx "list_transaction_history") account_id limit
        (decode_cursor cursor_str)
