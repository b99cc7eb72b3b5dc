-- ===== src/Store/Transactions.antt =====
-- internal/transfer/store/transactions.go
use qonto.Prelude.{ℕ, some, List, [], ◌∷◌, ◌++◌, map, if◌then◌else◌}
use qonto.Prelude.Int.{ℤ}
use qonto.Go.Errors.{Result, ok, err, wrap, other, ◌>>=◌}
use qonto.Go.Action.{Action, wrapping}
use qonto.Go.Context.{Context}
use qonto.Go.Time.{is_zero}
use qonto.Model.Transfer.{CreditTransfer}
use qonto.Model.Pagination.{TransactionHistoryItem, Cursor}
use qonto.Database.Engine.{
  Engine, Value, text, int, timestamp, Condition, equals, expr, Statement, select, copy_from, Reply,
}
use qonto.Store.Session.{db, building, exec}

-- `rows[i]`
unfoldable pub copy_row : ℤ → ℤ → CreditTransfer → List Value
copy_row account_id batch_id t =
    text t.counterparty_name
    ∷ text t.counterparty_iban
    ∷ text t.counterparty_bic
    ∷ int t.amount_cents
    ∷ text t.currency
    ∷ int account_id
    ∷ text t.description
    ∷ int batch_id
    ∷ []

unfoldable pub scan_item : List Value → Result TransactionHistoryItem
scan_item
      (int id
        ∷ text name
        ∷ text iban
        ∷ text bic
        ∷ int amount
        ∷ text currency
        ∷ text description
        ∷ timestamp created
        ∷ []) =
    ok (record {
      id = id;
      counterparty_name = name;
      counterparty_iban = iban;
      counterparty_bic = bic;
      amount_cents = amount;
      currency = currency;
      description = description;
      created_at = created;
    })
scan_item _ = err (other "cannot scan")

-- `for rows.Next() { ... items = append(items, item) }`: it stops at the first row that fails.
unfoldable pub scan_items :
    List TransactionHistoryItem → List (List Value) → Result (List TransactionHistoryItem)
unfolding scan_item
scan_items items [] = ok items
scan_items items (row ∷ rest) = elim (scan_item row) [
  | ok item ↦ scan_items (items ++ item ∷ []) rest
  | err x ↦ err (wrap "scan transaction history row" x)
]

-- The condition that a cursor adds; the zero time adds none.
unfoldable pub after_cursor : Cursor → List Condition
unfolding is_zero
after_cursor c =
    if is_zero c.created_at
    then []
    else expr "(created_at, id) < (?, ?)" (timestamp c.created_at ∷ int c.id ∷ []) ∷ []

unfoldable pub history_query : ℤ → Cursor → ℕ → Statement
unfolding after_cursor
history_query account_id cursor limit = select (record {
  columns =
      "id" ∷ "counterparty_name" ∷ "counterparty_iban" ∷ "counterparty_bic" ∷ "amount_cents"
      ∷ "amount_currency" ∷ "description" ∷ "created_at" ∷ [];
  table = "transactions";
  conditions = equals "bank_account_id" (int account_id) ∷ after_cursor cursor;
  order_by = "created_at DESC" ∷ "id DESC" ∷ [];
  limit = some limit;
  suffix = "";
})

module _ (e : Engine) where
  unfoldable pub insert_transactions :
      Context → ℤ → ℤ → List CreditTransfer → Action e.State (Unit {0})
  unfolding exec
  insert_transactions ctx account_id batch_id transfers = wrapping "insert transactions" (
      exec e ctx (
        copy_from "transactions"
          ("counterparty_name" ∷ "counterparty_iban" ∷ "counterparty_bic" ∷ "amount_cents"
            ∷ "amount_currency" ∷ "bank_account_id" ∷ "description" ∷ "batch_id" ∷ [])
          (map (copy_row account_id batch_id) transfers)))

  -- The reply to the query, row by row.
  unfoldable pub read_items : Reply → Result (List TransactionHistoryItem)
  unfolding scan_items
  read_items (Reply.failed x) = err (wrap "query transaction history" x)
  read_items (Reply.rows rs) = scan_items [] rs
  read_items (Reply.broken rs x) =
      scan_items [] rs >>= λ _. err (wrap "iterate transaction history rows" x)

  unfoldable pub transaction_history_page :
      Context → ℤ → Cursor → ℕ → Action e.State (List TransactionHistoryItem)
  unfolding read_items history_query
  transaction_history_page ctx account_id cursor limit =
      let q = history_query account_id cursor limit in
      building e "build transaction history query" q
        (λ s. let (r, s') = e.run (db ctx) q s in (read_items r, s'))
