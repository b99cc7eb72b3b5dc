-- ===== src/Program/Listing.antt =====
-- The pages of a history: the service over the store.
use qonto.Prelude.{
  ℕ, ◌+◌, ◌≡◌, ap, ◌∙◌, false, Bytes, List, length, length-take, take, take-take, ltb,
  if◌then◌else◌, arith,
}
use qonto.Prelude.Int.{ℤ}
use qonto.Go.Errors.{Result, ok, err}
use qonto.Go.Action.{pure, ◌>>=◌}
use qonto.Go.Context.{Context}
use qonto.Go.Time.{is_zero}
use qonto.Model.Pagination.{TransactionHistoryItem, Cursor, decode_cursor}
use qonto.Database.Engine.{Engine}
use qonto.Service.History.{TransactionHistoryPage, page_of, list_from, list_transaction_history}
use qonto.Service.History.Pages.{keep, page_of-take}
use qonto.Store.History.{history_of, ReadsHistory, Returns, transaction_history_page-Returns}
use qonto.Store.Laws.{repository}

module _ (e : Engine) where
  -- A page of at most `limit` of these rows, the first ones, that says whether there are more; or an
  -- error. The committed tables are as before.
  abbrev pub Shows :
      e.State → List TransactionHistoryItem → ℕ → Result TransactionHistoryPage × e.State → Type 0
  Shows s rows limit (ok page, s') =
      (page.items ≡ take limit rows)
      × (page.has_more ≡ ltb limit (length rows))
      × (e.committed s' ≡ e.committed s)
  Shows s rows limit (err x, s') = e.committed s' ≡ e.committed s

  page_of-Shows :
      (s : e.State) (rows : List TransactionHistoryItem) (limit : ℕ)
      (x : Result (List TransactionHistoryItem) × e.State)
      → Returns e s (take (limit + 1) rows) x
      → Shows s rows limit (((λ (_ : e.State). x) >>= (λ items. pure (page_of limit items))) s)
  page_of-Shows s rows limit (ok items, s') (same, c) =
      let (first, _, more, _) = page_of-take limit items in
      (
        first ∙ ap (take limit) same ∙ take-take limit (limit + 1) rows (omega arith),
        more ∙ ap (λ is. ltb limit (length is)) same ∙ ground (arith, length-take (limit + 1) rows),
        c,
      )
  page_of-Shows s rows limit (err x, s') c = c

  -- On an engine that answers the two queries of a page as PostgreSQL documents them, or fails: with
  -- a cursor that can be decoded, the page holds the first `limit` rows of the account that come
  -- behind the cursor, newest first, of those that are committed; it says that there are more
  -- exactly if there are; and nothing is changed.
  pub history_page :
      ReadsHistory e
      → (ctx : Context) (account_id : ℤ) (text : Bytes) (c : Cursor) (limit : ℕ) (s : e.State)
      → ctx.tx ≡ false
      → decode_cursor text ≡ ok c
      → let rows = history_of account_id (e.committed s).transactions in
        Shows s
          (if is_zero c.created_at then rows else keep c rows)
          limit
          (list_transaction_history (repository e) ctx account_id text limit s)
  unfolding list_transaction_history list_from
  history_page h ctx account_id text c limit s outside decoded = rw decoded (
      page_of-Shows s _ limit _
        (transaction_history_page-Returns e h _ account_id c (limit + 1) s outside))
