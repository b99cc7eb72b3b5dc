-- ===== src/Service/Contract.antt =====
-- What the service relies on: the laws of a repository and of a transactor, over a view of the
-- state as tables.
pub mod Rules
use qonto.Prelude.{
  ℕ, String, ◌≡◌, refl, ◌∙◌, ◌⊎◌, inl, inr, Bool, true, false, Option, none, some, List, map,
}
use qonto.Prelude.Int.{ℤ, pos, ◌-ℤ◌, ◌≤ℤ◌}
use qonto.Go.Errors.{Error, Result, ok, err}
use qonto.Go.Action.{Action, ◌>>=◌}
use qonto.Go.Context.{Context, with_tx}
use qonto.Model.Transfer.{CreditTransfer}
use qonto.Database.Schema.{
  Tables, TransactionRow, status_of, account_of, balance_of, add_key, add_batch, add_transactions,
  debit_in, posting_of, IsKeyed,
}
use qonto.Service.Interfaces.{Repository, Transactor}

-- What other sessions read, what the open transaction reads, and whether it has failed.
pub record View (S : Type 0) : Type 0 where
  pub committed : S → Tables
  pub current : S → Tables
  pub aborted : S → Bool

module _ {S : Type 0} (v : View S) where
  abbrev pub DoesAt : {A : Type 0} → S → (A → Tables → Type 0) → Result A × S → Type 0
  DoesAt s P (ok a, s') =
      (v.committed s' ≡ v.committed s) × (v.aborted s' ≡ v.aborted s) × P a (v.current s')
  DoesAt s P (err _, s') = v.committed s' ≡ v.committed s

  -- A step inside a transaction: it commits nothing, and if it returns, the transaction is as
  -- sound as before and `P` relates the value to the tables.
  pub record Does {A : Type 0} (s : S) (P : A → Tables → Type 0) (x : Result A × S) : Type 0 where
    pub holds : DoesAt s P x

  abbrev pub MayAt : {A : Type 0} → S → (A → Tables → Type 0) → Result A × S → Type 0
  MayAt s P (ok a, s') =
      (v.committed s' ≡ v.committed s) × ((v.aborted s' ≡ true) ⊎ P a (v.current s'))
  MayAt s P (err _, s') = v.committed s' ≡ v.committed s

  -- The same, but the step may return from a transaction that has failed.
  pub record May {A : Type 0} (s : S) (P : A → Tables → Type 0) (x : Result A × S) : Type 0 where
    pub holds : MayAt s P x

  abbrev pub SettledAt : {A : Type 0} → S → (A → Tables → Type 0) → Result A × S → Type 0
  SettledAt s P (ok a, s') = P a (v.committed s')
  SettledAt {A} s P (err _, s') =
      (v.committed s' ≡ v.committed s) ⊎ ((a : A) × P a (v.committed s'))

  -- A whole transaction: with a nil error `P` holds of what is committed. With an error nothing
  -- has changed, or the commit went through and its acknowledgement was lost.
  pub record Settled {A : Type 0} (s : S) (P : A → Tables → Type 0) (x : Result A × S)
      : Type 0 where
    pub holds : SettledAt s P x

pub record RepositoryLaws {S : Type 0} (v : View S) (repo : Repository S) : Type 0 where
  pub keyed : (s : S) → IsKeyed (v.current s).accounts
  pub lock :
      (ctx : Context) (k : String) (s : S)
      → ctx.tx ≡ true
      → Does v s (λ _ t. t ≡ v.current s) (repo.advisory_lock ctx k s)
  pub find_status :
      (ctx : Context) (k : String) (s : S)
      → ctx.tx ≡ true
      → Does v s
          (λ o t. (o ≡ status_of k t.keys) × (t ≡ v.current s))
          (repo.find_idempotency_record_status ctx k s)
  pub find_account :
      (ctx : Context) (iban bic : String) (s : S)
      → ctx.tx ≡ true
      → Does v s
          (λ o t. (o ≡ account_of iban bic t.accounts) × (t ≡ v.current s))
          (repo.find_account_for_update ctx iban bic s)
  pub batch :
      (ctx : Context) (account_id : ℤ) (k : String) (total : ℤ) (s : S)
      → ctx.tx ≡ true
      → Does v s
          (λ id t.
            (pos 1 ≤ℤ total)
            × (t
                ≡ add_batch
                    (record {
                      id = id;
                      bank_account_id = account_id;
                      idempotency_key = k;
                      total_amount_cents = total;
                    })
                    (v.current s)))
          (repo.insert_batch ctx account_id k total s)
  pub transactions :
      (ctx : Context) (account_id batch_id : ℤ) (ts : List CreditTransfer) (s : S)
      → ctx.tx ≡ true
      → Does v s
          (λ _ t.
            (rows : List TransactionRow) × (map (λ (r : TransactionRow). r.posting) rows
              ≡ map (posting_of account_id batch_id) ts)
            × (t ≡ add_transactions rows (v.current s)))
          (repo.insert_transactions ctx account_id batch_id ts s)
  pub debits :
      (ctx : Context) (account_id amount : ℤ) (s : S)
      → ctx.tx ≡ true
      → Does v s
          (λ left t.
            (b : ℤ) × (balance_of account_id (v.current s).accounts ≡ some b)
            × (left ≡ b -ℤ amount)
            × (t ≡ debit_in account_id amount (v.current s)))
          (repo.debit_account ctx account_id amount s)
  pub record_key :
      (ctx : Context) (k : String) (status : ℤ) (s : S)
      → ctx.tx ≡ true
      → May v s
          (λ _ t. (status_of k (v.current s).keys ≡ none) × (t ≡ add_key k status (v.current s)))
          (repo.record_idempotency ctx k status s)

pub record TransactorLaws {S A : Type 0} (v : View S) (txn : Transactor S A) : Type 1 where
  pub atomic_rule :
      (ctx : Context) (fn : Context → Action S A) (s : S) (P : A → Tables → Type 0)
      → ((s1 : S)
          → v.current s1 ≡ v.committed s
          → v.committed s1 ≡ v.committed s
          → v.aborted s1 ≡ false
          → May v s1 P (fn (with_tx ctx) s1))
      → Settled v s P (txn.atomic ctx fn s)
