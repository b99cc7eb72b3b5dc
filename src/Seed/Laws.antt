-- ===== src/Seed/Laws.antt =====
-- What PostgreSQL documents of the statements of the seed.
use qonto.Prelude.{◌≡◌, none, List, [], ◌∷◌, map, length}
use qonto.Prelude.Int.{ℤ, pos}
use qonto.Model.Transfer.{Account}
use qonto.Database.Schema.{Tables, Posting, TransactionRow, add_transactions}
use qonto.Database.Engine.{
  Engine, Value, text, int, select, insert, copy_from, Statement, Reply, Target,
}
use qonto.Database.Laws.{Answers}
use qonto.Seed.{SeedTransaction, seed_account, seed_transactions, seed_row}

-- The row that the seed's account becomes.
abbrev pub account_with : ℤ → Account
account_with id = record {
  id = id;
  organization_name = seed_account.organization_name;
  balance_cents = seed_account.balance_cents;
  iban = seed_account.iban;
  bic = seed_account.bic;
}

abbrev pub posting_with : ℤ → SeedTransaction → Posting
posting_with account_id t = record {
  counterparty_name = t.counterparty_name;
  counterparty_iban = t.counterparty_iban;
  counterparty_bic = t.counterparty_bic;
  amount_cents = t.amount_cents;
  amount_currency = t.amount_currency;
  bank_account_id = account_id;
  description = t.description;
  batch_id = none;
}

abbrev pub with_account_row : ℤ → Tables → Tables
with_account_row id t = record t { accounts = account_with id ∷ t.accounts }

-- One more account, and its transactions.
abbrev pub Seeded : Tables → Tables → Type 0
Seeded t t' =
    (id : ℤ) × (rows : List TransactionRow) × (map (λ (r : TransactionRow). r.posting) rows
      ≡ map (posting_with id) seed_transactions)
    × (t' ≡ add_transactions rows (with_account_row id t))

abbrev pub count_select : Statement
count_select = select (record {
  columns = "count(*)" ∷ [];
  table = "bank_accounts";
  conditions = [];
  order_by = [];
  limit = none;
  suffix = "";
})

-- The insert of the account, and what it answers and leaves.
abbrev pub account_insert : Statement
account_insert = insert (record {
  table = "bank_accounts";
  columns = "organization_name" ∷ "balance_cents" ∷ "iban" ∷ "bic" ∷ [];
  values =
      text seed_account.organization_name
      ∷ int seed_account.balance_cents
      ∷ text seed_account.iban
      ∷ text seed_account.bic
      ∷ [];
  suffix = "RETURNING id";
})

abbrev pub Inserted : Tables → List (List Value) → Tables → Type 0
Inserted t rs t' = (id : ℤ) × (rs ≡ (int id ∷ []) ∷ []) × (t' ≡ with_account_row id t)

abbrev pub Copied : ℤ → Tables → Tables → Type 0
Copied account_id t t' =
    (rows : List TransactionRow) × (map (λ (r : TransactionRow). r.posting) rows
      ≡ map (posting_with account_id) seed_transactions)
    × (t' ≡ add_transactions rows t)

module _ (e : Engine) where
  abbrev pub CountsAt : e.State → Reply × e.State → Type 0
  CountsAt s (Reply.rows rs, s') =
      (rs ≡ (int (pos (length (e.committed s).accounts)) ∷ []) ∷ [])
      × (e.committed s' ≡ e.committed s)
  CountsAt s (Reply.failed x, s') = e.committed s' ≡ e.committed s
  CountsAt s (Reply.broken rs x, s') = e.committed s' ≡ e.committed s

  -- What PostgreSQL documents of the three statements of the seed.
  pub record IsSeedable : Type 0 where
    pub counts : (s : e.State) → CountsAt s (e.run Target.pool count_select s)
    pub inserts_account :
        (s : e.State) → Answers e s (Inserted (e.current s)) (e.run Target.tx account_insert s)
    pub copies_rows :
        (account_id : ℤ) (s : e.State)
        → Answers e s
            (λ _ t. Copied account_id (e.current s) t)
            (e.run Target.tx
              (copy_from "transactions"
                ("counterparty_name" ∷ "counterparty_iban" ∷ "counterparty_bic" ∷ "amount_cents"
                  ∷ "amount_currency" ∷ "bank_account_id" ∷ "description" ∷ [])
                (map (seed_row account_id) seed_transactions))
              s)
