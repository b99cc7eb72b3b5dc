-- ===== src/Store/History.antt =====
-- TransactionHistoryPage on the tables: which rows of an account a page holds.
use qonto.Prelude.{
  ℕ, ◌≡◌, refl, ap, ◌∙◌, inl, inr, Bool-cases, false, none, some, List, [], ◌∷◌, ◌++◌, Option,
  append-nil_right, append_assoc, map, take, if◌then◌else◌,
}
use qonto.Prelude.Int.{ℤ, eqb_ℤ}
use qonto.Go.Errors.{Error, Result, ok, err, wrap, ◌>>=◌}
use qonto.Go.Context.{Context}
use qonto.Go.Time.{is_zero}
use qonto.Model.Pagination.{TransactionHistoryItem, Cursor}
use qonto.Database.Schema.{TransactionRow}
use qonto.Database.Engine.{
  Engine, Value, text, int, timestamp, equals, expr, Statement, select, Reply, Target,
}
use qonto.Service.History.{cursor_at}
use qonto.Service.History.Pages.{before, keep, select_page}
use qonto.Store.Session.{db, building}
use qonto.Store.Transactions.{
  scan_item, scan_items, after_cursor, history_query, read_items, transaction_history_page,
}

abbrev pub item_of : TransactionRow → TransactionHistoryItem
item_of r = record {
  id = r.id;
  counterparty_name = r.posting.counterparty_name;
  counterparty_iban = r.posting.counterparty_iban;
  counterparty_bic = r.posting.counterparty_bic;
  amount_cents = r.posting.amount_cents;
  currency = r.posting.amount_currency;
  description = r.posting.description;
  created_at = r.created_at;
}

-- ORDER BY created_at DESC, id DESC
abbrev pub insert_newest :
    TransactionHistoryItem → List TransactionHistoryItem → List TransactionHistoryItem
insert_newest i [] = i ∷ []
insert_newest i (j ∷ js) = if before i (cursor_at j) then j ∷ insert_newest i js else i ∷ j ∷ js

-- The rows of an account, newest first.
abbrev pub history_of : ℤ → List TransactionRow → List TransactionHistoryItem
history_of account_id [] = []
history_of account_id (r ∷ rs) =
    let rest = history_of account_id rs in
    if eqb_ℤ r.posting.bank_account_id account_id then insert_newest (item_of r) rest else rest

abbrev pub item_values : TransactionHistoryItem → List Value
item_values i =
    int i.id
    ∷ text i.counterparty_name
    ∷ text i.counterparty_iban
    ∷ text i.counterparty_bic
    ∷ int i.amount_cents
    ∷ text i.currency
    ∷ text i.description
    ∷ timestamp i.created_at
    ∷ []

module _ (e : Engine) where
  -- A query changes nothing, and answers these rows, or fails, before or among them.
  abbrev pub Lists : e.State → List TransactionHistoryItem → Reply × e.State → Type 0
  Lists s items (Reply.rows rs, s') =
      (rs ≡ map item_values items) × (e.committed s' ≡ e.committed s)
  Lists s items (Reply.failed x, s') = e.committed s' ≡ e.committed s
  Lists s items (Reply.broken rs x, s') = e.committed s' ≡ e.committed s

  -- What PostgreSQL documents of the two queries of a page.
  pub record ReadsHistory : Type 0 where
    pub newest :
        (account_id : ℤ) (n : ℕ) (s : e.State)
        → Lists s (take n (history_of account_id (e.committed s).transactions)) (
            e.run Target.pool
              (select (record {
                columns =
                    "id" ∷ "counterparty_name" ∷ "counterparty_iban" ∷ "counterparty_bic"
                    ∷ "amount_cents" ∷ "amount_currency" ∷ "description" ∷ "created_at" ∷ [];
                table = "transactions";
                conditions = equals "bank_account_id" (int account_id) ∷ [];
                order_by = "created_at DESC" ∷ "id DESC" ∷ [];
                limit = some n;
                suffix = "";
              }))
              s)
    pub older :
        (account_id : ℤ) (c : Cursor) (n : ℕ) (s : e.State)
        → Lists s (take n (keep c (history_of account_id (e.committed s).transactions))) (
            e.run Target.pool
              (select (record {
                columns =
                    "id" ∷ "counterparty_name" ∷ "counterparty_iban" ∷ "counterparty_bic"
                    ∷ "amount_cents" ∷ "amount_currency" ∷ "description" ∷ "created_at" ∷ [];
                table = "transactions";
                conditions =
                    equals "bank_account_id" (int account_id)
                    ∷ expr "(created_at, id) < (?, ?)" (timestamp c.created_at ∷ int c.id ∷ [])
                    ∷ [];
                order_by = "created_at DESC" ∷ "id DESC" ∷ [];
                limit = some n;
                suffix = "";
              }))
              s)

scan_items-item_values :
    (done items : List TransactionHistoryItem)
    → scan_items done (map item_values items) ≡ ok (done ++ items)
unfolding scan_items scan_item
scan_items-item_values done [] = ap ok (append-nil_right done)
scan_items-item_values done (i ∷ items) =
    scan_items-item_values (done ++ i ∷ []) items ∙ ap ok (append_assoc done (i ∷ []) items)

module _ (e : Engine) where
  -- An error, or this value; and the committed tables as they were.
  abbrev pub Returns : {A : Type 0} → e.State → A → Result A × e.State → Type 0
  Returns s a (ok b, s') = (b ≡ a) × (e.committed s' ≡ e.committed s)
  Returns s a (err x, s') = e.committed s' ≡ e.committed s

  read_items-Returns :
      (s : e.State) (items : List TransactionHistoryItem) (x : Reply × e.State)
      → Lists e s items x
      → Returns s items (read_items e x.0, x.1)
  unfolding read_items
  read_items-Returns s items (Reply.rows rs, s') (h, c) =
      rw (h, scan_items-item_values [] items) (refl, c)
  read_items-Returns s items (Reply.failed x, s') c = c
  read_items-Returns s items (Reply.broken rs x, s') c = interrupted (scan_items [] rs)
    where
      interrupted :
          (r : Result (List TransactionHistoryItem))
          → Returns s items (r >>= (λ _. err (wrap "iterate transaction history rows" x)), s')
      interrupted (ok is) = c
      interrupted (err y) = c

  -- The query, once it is built, and what is read of its rows.
  abbrev page_on : Target → Statement → e.State → Result (List TransactionHistoryItem) × e.State
  page_on g q =
      building e "build transaction history query" q
        (λ s. let (r, s') = e.run g q s in (read_items e r, s'))

  page_on-Returns :
      (s : e.State) (items : List TransactionHistoryItem) (q : Statement)
      → Lists e s items (e.run Target.pool q s)
      → Returns s items (page_on Target.pool q s)
  page_on-Returns s items q h = on_error (e.to_sql q)
    where
      on_error :
          (o : Option Error)
          → Returns s items (elim o [
            | none ↦ (read_items e (e.run Target.pool q s).0, (e.run Target.pool q s).1)
            | some x ↦ (err (wrap "build transaction history query" x), s)
          ])
      on_error none = read_items-Returns s items (e.run Target.pool q s) h
      on_error (some x) = refl

  -- Outside a transaction, a page is the newest rows behind the cursor, or an error.
  pub transaction_history_page-Returns :
      ReadsHistory e
      → (ctx : Context) (account_id : ℤ) (c : Cursor) (n : ℕ) (s : e.State) → ctx.tx ≡ false
      → Returns s
          (select_page (history_of account_id (e.committed s).transactions) c n)
          (transaction_history_page e ctx account_id c n s)
  unfolding transaction_history_page history_query after_cursor db
  transaction_history_page-Returns h ctx account_id c n s outside =
      rw outside (elim (Bool-cases (is_zero c.created_at)) [
        | inl first ↦ rw first (page_on-Returns s _ _ (h.newest account_id n s))
        | inr later ↦ rw later (page_on-Returns s _ _ (h.older account_id c n s))
      ])
