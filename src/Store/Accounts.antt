-- ===== src/Store/Accounts.antt =====
-- internal/transfer/store/accounts.go and batches.go
use qonto.Prelude.{String, Option, none, List, [], ◌∷◌}
use qonto.Prelude.Int.{ℤ}
use qonto.Go.Errors.{Result, ok, err, other}
use qonto.Go.Action.{Action, wrapping}
use qonto.Go.Context.{Context}
use qonto.Model.Transfer.{Account}
use qonto.Database.Engine.{Engine, Value, text, int, equals, expr, select, update, insert}
use qonto.Store.Session.{scan_int, building, query_row, optional}

unfoldable pub scan_account : List Value → Result Account
scan_account (int id ∷ text name ∷ int balance ∷ text iban ∷ text bic ∷ []) =
    ok (record {
      id = id;
      organization_name = name;
      balance_cents = balance;
      iban = iban;
      bic = bic;
    })
scan_account _ = err (other "cannot scan")

module _ (e : Engine) where
  unfoldable pub find_account_for_update :
      Context → String → String → Action e.State (Option Account)
  unfolding query_row scan_account
  find_account_for_update ctx iban bic =
      let q = select (record {
        columns = "id" ∷ "organization_name" ∷ "balance_cents" ∷ "iban" ∷ "bic" ∷ [];
        table = "bank_accounts";
        conditions = equals "iban" (text iban) ∷ equals "bic" (text bic) ∷ [];
        order_by = [];
        limit = none;
        suffix = "FOR UPDATE";
      }) in
      building e "build find account query" q
        (optional "find account for update" (query_row e ctx q scan_account))

  unfoldable pub debit_account : Context → ℤ → ℤ → Action e.State ℤ
  unfolding query_row scan_int
  debit_account ctx account_id amount_cents =
      let q = update (record {
        table = "bank_accounts";
        column = "balance_cents";
        value = expr "balance_cents - ?" (int amount_cents ∷ []);
        conditions = equals "id" (int account_id) ∷ [];
        suffix = "RETURNING balance_cents";
      }) in
      building e "build debit account query" q
        (wrapping "debit account" (query_row e ctx q scan_int))

  unfoldable pub insert_batch : Context → ℤ → String → ℤ → Action e.State ℤ
  unfolding query_row scan_int
  insert_batch ctx account_id idempotency_key total_cents =
      let q = insert (record {
        table = "bulk_transfer_batches";
        columns = "bank_account_id" ∷ "idempotency_key" ∷ "total_amount_cents" ∷ [];
        values = int account_id ∷ text idempotency_key ∷ int total_cents ∷ [];
        suffix = "RETURNING id";
      }) in
      building e "build insert batch query" q (wrapping "insert batch" (query_row e ctx q scan_int))
