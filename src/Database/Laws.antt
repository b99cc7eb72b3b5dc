-- ===== src/Database/Laws.antt =====
-- What PostgreSQL and pgx document of the engine, for the statements that the program builds.
use qonto.Prelude.{String, ◌≡◌, ◌⊎◌, true, false, Option, none, some, List, [], ◌∷◌, map}
use qonto.Prelude.Int.{ℤ, pos, ◌-ℤ◌, ◌≤ℤ◌}
use qonto.Go.Errors.{Error, is_no_rows}
use qonto.Model.Transfer.{Account}
use qonto.Database.Schema.{
  Posting, TransactionRow, Tables, status_of, account_of, balance_of, add_key, add_batch,
  add_transactions, debit_in, IsKeyed,
}
use qonto.Database.Engine.{
  Engine, Value, text, int, equals, expr, select, update, insert, copy_from, raw, Reply, Target,
}

module _ (e : Engine) where
  -- An open transaction commits nothing. A statement that fails aborts it; one that succeeds
  -- leaves it sound, and `P` relates the rows to the tables it then reads. pgx.ErrNoRows is never
  -- the error of a statement: it is what `Scan` returns where there is no row.
  abbrev pub AnswersAt : e.State → (List (List Value) → Tables → Type 0) → Reply × e.State → Type 0
  AnswersAt s P (Reply.failed x, s') =
      (e.committed s' ≡ e.committed s) × (e.aborted s' ≡ true) × (is_no_rows x ≡ false)
  AnswersAt s P (Reply.broken _ x, s') =
      (e.committed s' ≡ e.committed s) × (e.aborted s' ≡ true) × (is_no_rows x ≡ false)
  AnswersAt s P (Reply.rows rs, s') =
      (e.committed s' ≡ e.committed s) × (e.aborted s' ≡ e.aborted s) × P rs (e.current s')

  pub record Answers (s : e.State) (P : List (List Value) → Tables → Type 0) (x : Reply × e.State)
      : Type 0 where
    pub holds : AnswersAt s P x

  abbrev pub BeginsAt : e.State → Option Error × e.State → Type 0
  BeginsAt s (none, s') =
      (e.committed s' ≡ e.committed s) × (e.current s' ≡ e.committed s) × (e.aborted s' ≡ false)
  BeginsAt s (some _, s') = e.committed s' ≡ e.committed s

  -- A commit of an aborted transaction rolls back and reports an error. Where the acknowledgement
  -- of a commit is lost, the commit may have happened.
  abbrev pub CommitsAt : e.State → Option Error × e.State → Type 0
  CommitsAt s (none, s') = (e.aborted s ≡ false) × (e.committed s' ≡ e.current s)
  CommitsAt s (some _, s') =
      (e.committed s' ≡ e.committed s) ⊎ ((e.aborted s ≡ false) × (e.committed s' ≡ e.current s))

  -- The columns of one account.
  abbrev pub account_row : Account → List Value
  account_row a =
      int a.id ∷ text a.organization_name ∷ int a.balance_cents ∷ text a.iban ∷ text a.bic ∷ []

  abbrev pub found_rows {ℓ} : {A : Type ℓ} → (A → List Value) → Option A → List (List Value)
  found_rows row none = []
  found_rows row (some a) = row a ∷ []

  abbrev pub CopyValues : Posting → List Value → Type 0
  CopyValues p vs =
      (id : ℤ) × (p.batch_id ≡ some id)
      × (vs
          ≡ text p.counterparty_name
            ∷ text p.counterparty_iban
            ∷ text p.counterparty_bic
            ∷ int p.amount_cents
            ∷ text p.amount_currency
            ∷ int p.bank_account_id
            ∷ text p.description
            ∷ int id
            ∷ [])

  -- Each posting is one row of values, in order.
  abbrev pub Copies : List Posting → List (List Value) → Type 0
  Copies [] [] = Unit
  Copies (p ∷ ps) (vs ∷ vss) = CopyValues p vs × Copies ps vss
  Copies _ _ = ⊥

  pub record IsPostgres : Type 0 where
    pub begins : (s : e.State) → BeginsAt s (e.begin s)
    pub commits : (s : e.State) → CommitsAt s (e.commit s)
    pub rolls_back : (s : e.State) → e.committed (e.rollback s).1 ≡ e.committed s
    -- PRIMARY KEY of bank_accounts
    pub keyed : (s : e.State) → IsKeyed (e.current s).accounts
    pub locks :
        (k : String) (s : e.State)
        → Answers s
            (λ _ t. t ≡ e.current s)
            (e.run Target.tx (raw "SELECT pg_advisory_xact_lock(hashtext($1))" (text k ∷ [])) s)
    pub selects_status :
        (k : String) (s : e.State)
        → Answers s
            (λ rs t.
              (rs ≡ found_rows (λ n. int n ∷ []) (status_of k (e.current s).keys))
              × (t ≡ e.current s))
            (e.run Target.tx
              (select (record {
                columns = "response_status" ∷ [];
                table = "idempotency_keys";
                conditions = equals "key" (text k) ∷ [];
                order_by = [];
                limit = none;
                suffix = "";
              }))
              s)
    -- UNIQUE (key): the insert of a key that is there fails.
    pub inserts_key :
        (k : String) (status : ℤ) (s : e.State)
        → Answers s
            (λ _ t. (status_of k (e.current s).keys ≡ none) × (t ≡ add_key k status (e.current s)))
            (e.run Target.tx
              (insert (record {
                table = "idempotency_keys";
                columns = "key" ∷ "response_status" ∷ [];
                values = text k ∷ int status ∷ [];
                suffix = "";
              }))
              s)
    -- UNIQUE (iban, bic): one row at most.
    pub selects_account :
        (iban bic : String) (s : e.State)
        → Answers s
            (λ rs t.
              (rs ≡ found_rows account_row (account_of iban bic (e.current s).accounts))
              × (t ≡ e.current s))
            (e.run Target.tx
              (select (record {
                columns = "id" ∷ "organization_name" ∷ "balance_cents" ∷ "iban" ∷ "bic" ∷ [];
                table = "bank_accounts";
                conditions = equals "iban" (text iban) ∷ equals "bic" (text bic) ∷ [];
                order_by = [];
                limit = none;
                suffix = "FOR UPDATE";
              }))
              s)
    -- BIGINT does not wrap: a sum out of range is an error.
    pub updates_balance :
        (id amount : ℤ) (s : e.State)
        → Answers s
            (λ rs t.
              (rs ≡ found_rows (λ b. int (b -ℤ amount) ∷ []) (balance_of id (e.current s).accounts))
              × (t ≡ debit_in id amount (e.current s)))
            (e.run Target.tx
              (update (record {
                table = "bank_accounts";
                column = "balance_cents";
                value = expr "balance_cents - ?" (int amount ∷ []);
                conditions = equals "id" (int id) ∷ [];
                suffix = "RETURNING balance_cents";
              }))
              s)
    -- CHECK (total_amount_cents > 0)
    pub inserts_batch :
        (account_id : ℤ) (k : String) (total : ℤ) (s : e.State)
        → Answers s
            (λ rs t.
              (pos 1 ≤ℤ total)
              × (rs ≡ (int (e.next_batch_id s) ∷ []) ∷ [])
              × (t
                  ≡ add_batch
                      (record {
                        id = e.next_batch_id s;
                        bank_account_id = account_id;
                        idempotency_key = k;
                        total_amount_cents = total;
                      })
                      (e.current s)))
            (e.run Target.tx
              (insert (record {
                table = "bulk_transfer_batches";
                columns = "bank_account_id" ∷ "idempotency_key" ∷ "total_amount_cents" ∷ [];
                values = int account_id ∷ text k ∷ int total ∷ [];
                suffix = "RETURNING id";
              }))
              s)
    pub copies :
        (ps : List Posting) (vss : List (List Value)) (s : e.State)
        → Copies ps vss
        → Answers s
            (λ _ t. t ≡ add_transactions (e.stamp s ps) (e.current s))
            (e.run Target.tx
              (copy_from "transactions"
                ("counterparty_name" ∷ "counterparty_iban" ∷ "counterparty_bic" ∷ "amount_cents"
                  ∷ "amount_currency" ∷ "bank_account_id" ∷ "description" ∷ "batch_id" ∷ [])
                vss)
              s)
    pub stamps :
        (s : e.State) (ps : List Posting)
        → map (λ (r : TransactionRow). r.posting) (e.stamp s ps) ≡ ps
