-- ===== src/Seed.antt =====
-- seed/seed.go
pub mod Laws
pub mod Settles
use qonto.Prelude.{String, none, some, List, [], ◌∷◌, map, if◌then◌else◌}
use qonto.Prelude.Int.{ℤ, pos, negsuc, ltb_ℤ}
use qonto.Go.Errors.{ok, err, wrap}
use qonto.Go.Action.{Action, pure, wrapping, ◌>>=◌}
use qonto.Database.Engine.{Engine, Value, text, int, select, insert, copy_from, Statement, Target}
use qonto.Store.Session.{building, read_row, read_done, scan_int}

-- The seed's `account`.
pub record SeedAccount : Type 0 where
  pub organization_name : String
  pub balance_cents : ℤ
  pub iban : String
  pub bic : String

-- The seed's `transaction`.
pub record SeedTransaction : Type 0 where
  pub counterparty_name : String
  pub counterparty_iban : String
  pub counterparty_bic : String
  pub amount_cents : ℤ
  pub amount_currency : String
  pub description : String

abbrev pub seed_account : SeedAccount
seed_account = record {
  organization_name = "ACME Corp";
  balance_cents = pos 10_000_000;
  iban = "FR10474608000002006107XXXXX";
  bic = "OIVUSCLQXXX";
}

abbrev pub seed_transactions : List SeedTransaction
seed_transactions =
    record {
      counterparty_name = "ACME Corp. Main Account";
      counterparty_iban = "EE382200221020145685";
      counterparty_bic = "CCOPFRPPXXX";
      amount_cents = pos 11_000_000;
      amount_currency = "EUR";
      description = "Treasury income";
    }
    ∷ record {
      counterparty_name = "Bip Bip";
      counterparty_iban = "EE383680981021245685";
      counterparty_bic = "CRLYFRPPTOU";
      amount_cents = negsuc 999_999;
      amount_currency = "EUR";
      description = "Bip Bip Salary";
    }
    ∷ []

-- `rows[i]`
unfoldable pub seed_row : ℤ → SeedTransaction → List Value
seed_row account_id t =
    text t.counterparty_name
    ∷ text t.counterparty_iban
    ∷ text t.counterparty_bic
    ∷ int t.amount_cents
    ∷ text t.amount_currency
    ∷ int account_id
    ∷ text t.description
    ∷ []

module _ (e : Engine) where
  -- `QueryRow(...).Scan(&n)`
  unfoldable pub query_int : Target → Statement → Action e.State ℤ
  unfolding read_row scan_int
  query_int g q s = let (r, s') = e.run g q s in (read_row scan_int r, s')

  unfoldable pub count_accounts : Action e.State ℤ
  unfolding query_int
  count_accounts =
      let q = select (record {
        columns = "count(*)" ∷ [];
        table = "bank_accounts";
        conditions = [];
        order_by = [];
        limit = none;
        suffix = "";
      }) in
      building e "build count query" q
        (wrapping "check existing bank_accounts" (query_int Target.pool q))

  unfoldable pub insert_account : Action e.State ℤ
  unfolding query_int
  insert_account =
      let q = insert (record {
        table = "bank_accounts";
        columns = "organization_name" ∷ "balance_cents" ∷ "iban" ∷ "bic" ∷ [];
        values =
            text seed_account.organization_name
            ∷ int seed_account.balance_cents
            ∷ text seed_account.iban
            ∷ text seed_account.bic
            ∷ [];
        suffix = "RETURNING id";
      }) in
      building e "build insert account query" q
        (wrapping "seed bank_accounts" (query_int Target.tx q))

  unfoldable pub copy_transactions : ℤ → Action e.State (Unit {0})
  unfolding read_done seed_row
  copy_transactions account_id = wrapping "seed transactions" (λ s.
      let (r, s') =
        e.run Target.tx
          (copy_from "transactions"
            ("counterparty_name" ∷ "counterparty_iban" ∷ "counterparty_bic" ∷ "amount_cents"
              ∷ "amount_currency" ∷ "bank_account_id" ∷ "description" ∷ [])
            (map (seed_row account_id) seed_transactions))
          s in
      (read_done r, s'))

  unfoldable pub commit_seed : Action e.State (Unit {0})
  commit_seed s =
      let (failure, s') = e.commit s in
      elim failure [ none ↦ (ok tt, s') | some x ↦ (err (wrap "commit seed transaction" x), s') ]

  -- Between `Begin` and the deferred `Rollback`.
  unfoldable pub seed_body : Action e.State (Unit {0})
  unfolding insert_account copy_transactions commit_seed
  seed_body = do account_id ← insert_account; _ ← copy_transactions account_id; commit_seed

  unfoldable pub seed_in_transaction : Action e.State (Unit {0})
  unfolding seed_body
  seed_in_transaction s =
      let (failure, s1) = e.begin s in
      elim failure [
        | some x ↦ (err (wrap "begin seed transaction" x), s1)
        | none ↦ let (r, s2) = seed_body s1 in (r, (e.rollback s2).1)
      ]

  unfoldable pub seed : Action e.State (Unit {0})
  unfolding count_accounts seed_in_transaction
  seed = do count ← count_accounts; if ltb_ℤ (pos 0) count then pure tt else seed_in_transaction
