-- ===== src/Store/Laws.antt =====
-- The store on PostgreSQL is a repository as the service wants it.
use mathlib.Core.Path.{subst}
use qonto.Prelude.{String, ◌≡◌, refl, sym, ap, none, some, List, [], ◌∷◌, map, true}
use qonto.Prelude.Int.{ℤ, pos, ◌-ℤ◌, ◌≤ℤ◌}
use qonto.Go.Action.{Action}
use qonto.Go.Context.{Context, with_tx}
use qonto.Model.Transfer.{CreditTransfer}
use qonto.Database.Schema.{
  Tables, TransactionRow, status_of, account_of, balance_of, add_key, add_batch, add_transactions,
  debit_in, posting_of,
}
use qonto.Database.Engine.{Engine, int}
use qonto.Database.Laws.{account_row, IsPostgres}
use qonto.Service.Interfaces.{Repository}
use qonto.Service.Contract.{Does, May, RepositoryLaws}
use qonto.Txn.Laws.{view}
use qonto.Store.Session.{scan_int}
use qonto.Store.Idempotency.{advisory_lock, find_idempotency_record_status, record_idempotency}
use qonto.Store.Accounts.{scan_account, find_account_for_update, debit_account, insert_batch}
use qonto.Store.Transactions.{copy_row, insert_transactions, transaction_history_page}
use qonto.Store.Steps.{found_some, Copies-copy_row, finds, returns, executes, tolerates, Does-map}

abbrev pub repository : (e : Engine) → Repository e.State
repository e = record {
  advisory_lock = advisory_lock e;
  find_idempotency_record_status = find_idempotency_record_status e;
  record_idempotency = record_idempotency e;
  find_account_for_update = find_account_for_update e;
  debit_account = debit_account e;
  insert_batch = insert_batch e;
  insert_transactions = insert_transactions e;
  transaction_history_page = transaction_history_page e;
}

module _ (e : Engine) (p : IsPostgres e) (ctx : Context) where
  locks :
      (k : String) (s : e.State)
      → Does (view e) s (λ _ t. t ≡ e.current s) (advisory_lock e (with_tx ctx) k s)
  unfolding advisory_lock
  locks k s = executes e ctx "acquire advisory lock" {P = λ t. t ≡ e.current s} (p.locks k s)

  finds_status :
      (k : String) (s : e.State)
      → Does
          (view e)
          s
          (λ o t. (o ≡ status_of k t.keys) × (t ≡ e.current s))
          (find_idempotency_record_status e (with_tx ctx) k s)
  unfolding find_idempotency_record_status
  finds_status k s =
      finds e ctx "build find idempotency record query" "find idempotency record" scan_int
        (λ n. int n ∷ []) (λ a. refl) (λ t. status_of k t.keys) (p.selects_status k s)

  records :
      (k : String) (status : ℤ) (s : e.State)
      → May
          (view e)
          s
          (λ _ t. (status_of k (e.current s).keys ≡ none) × (t ≡ add_key k status (e.current s)))
          (record_idempotency e (with_tx ctx) k status s)
  unfolding record_idempotency
  records k status s =
      tolerates e ctx "build record idempotency query"
        {P = λ t. (status_of k (e.current s).keys ≡ none) × (t ≡ add_key k status (e.current s))}
        (p.inserts_key k status s)

  finds_account :
      (iban bic : String) (s : e.State)
      → Does
          (view e)
          s
          (λ o t. (o ≡ account_of iban bic t.accounts) × (t ≡ e.current s))
          (find_account_for_update e (with_tx ctx) iban bic s)
  unfolding find_account_for_update
  finds_account iban bic s =
      finds e ctx "build find account query" "find account for update" scan_account (account_row e)
        (λ a. refl) (λ t. account_of iban bic t.accounts) (p.selects_account iban bic s)

  inserts_batch :
      (account_id : ℤ) (k : String) (total : ℤ) (s : e.State)
      → Does
          (view e)
          s
          (λ id t.
            (pos 1 ≤ℤ total)
            × (t
                ≡ add_batch
                    (record {
                      id = id;
                      bank_account_id = account_id;
                      idempotency_key = k;
                      total_amount_cents = total;
                    })
                    (e.current s)))
          (insert_batch e (with_tx ctx) account_id k total s)
  unfolding insert_batch scan_int
  inserts_batch account_id k total s =
      returns e ctx "build insert batch query" "insert batch" scan_int
        (p.inserts_batch account_id k total s)
        (λ r rs t (positive, q, moved).
          let er : r ≡ int (e.next_batch_id s) ∷ [] = cc q in
          (e.next_batch_id s, ap scan_int er, (positive, moved)))

  debits :
      (account_id amount : ℤ) (s : e.State)
      → Does
          (view e)
          s
          (λ left t.
            (b : ℤ) × (balance_of account_id (e.current s).accounts ≡ some b)
            × (left ≡ b -ℤ amount)
            × (t ≡ debit_in account_id amount (e.current s)))
          (debit_account e (with_tx ctx) account_id amount s)
  unfolding debit_account scan_int
  debits account_id amount s =
      returns e ctx "build debit account query" "debit account" scan_int
        (p.updates_balance account_id amount s)
        (λ r rs t (q, moved).
          let (b, eb, er) = found_some e (λ b. int (b -ℤ amount) ∷ []) _ q in
          (b -ℤ amount, ap scan_int er, (b, eb, refl, moved)))

  inserts_transactions :
      (account_id batch_id : ℤ) (ts : List CreditTransfer) (s : e.State)
      → Does
          (view e)
          s
          (λ _ t.
            (rows : List TransactionRow) × (map (λ (r : TransactionRow). r.posting) rows
              ≡ map (posting_of account_id batch_id) ts)
            × (t ≡ add_transactions rows (e.current s)))
          (insert_transactions e (with_tx ctx) account_id batch_id ts s)
  unfolding insert_transactions
  inserts_transactions account_id batch_id ts s =
      let ps = map (posting_of account_id batch_id) ts in
      Does-map e (λ _ t moved. (e.stamp s ps, p.stamps s ps, moved))
        (executes e ctx "insert transactions"
          {P = λ t. t ≡ add_transactions (e.stamp s ps) (e.current s)}
          (p.copies ps (map (copy_row account_id batch_id) ts) s
            (Copies-copy_row e account_id batch_id ts)))

-- A context in which the transaction is stashed.
stashed : (ctx : Context) → ctx.tx ≡ true → with_tx ctx ≡ ctx
stashed ctx h = ap (λ b. record ctx { tx = b }) (sym h)

module _ (e : Engine) {A : Type 0} {s : e.State} {P : A → Tables → Type 0} where
  in_tx :
      (m : Context → Action e.State A) {ctx : Context}
      → ctx.tx ≡ true
      → Does (view e) s P (m (with_tx ctx) s)
      → Does (view e) s P (m ctx s)
  in_tx m {ctx} tx h = subst (λ c. Does (view e) s P (m c s)) (stashed ctx tx) h

  in_tx-May :
      (m : Context → Action e.State A) {ctx : Context}
      → ctx.tx ≡ true
      → May (view e) s P (m (with_tx ctx) s)
      → May (view e) s P (m ctx s)
  in_tx-May m {ctx} tx h = subst (λ c. May (view e) s P (m c s)) (stashed ctx tx) h

-- On an engine that keeps PostgreSQL's documented behaviour, the store has the laws that the
-- service relies on.
pub repository-RepositoryLaws : (e : Engine) → IsPostgres e → RepositoryLaws (view e) (repository e)
repository-RepositoryLaws e p = record {
  keyed = p.keyed;
  lock = λ ctx k s tx. in_tx e (λ c. advisory_lock e c k) tx (locks e p ctx k s);
  find_status = λ ctx k s tx.
      in_tx e (λ c. find_idempotency_record_status e c k) tx (finds_status e p ctx k s);
  find_account = λ ctx iban bic s tx.
      in_tx e (λ c. find_account_for_update e c iban bic) tx (finds_account e p ctx iban bic s);
  batch = λ ctx id k total s tx.
      in_tx e (λ c. insert_batch e c id k total) tx (inserts_batch e p ctx id k total s);
  transactions = λ ctx id b ts s tx.
      in_tx e (λ c. insert_transactions e c id b ts) tx (inserts_transactions e p ctx id b ts s);
  debits = λ ctx id amount s tx.
      in_tx e (λ c. debit_account e c id amount) tx (debits e p ctx id amount s);
  record_key = λ ctx k status s tx.
      in_tx-May e (λ c. record_idempotency e c k status) tx (records e p ctx k status s);
}
