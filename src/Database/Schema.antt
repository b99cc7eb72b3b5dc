-- ===== src/Database/Schema.antt =====
-- The tables of migrations/*.up.sql, as the lists of their rows, and what the statements of the
-- program ask of them.
use text.Mathlib.Text.{◌==◌}
use qonto.Prelude.{String, ◌≡◌, Option, none, some, List, [], ◌∷◌, ◌++◌, ◌&&◌, if◌then◌else◌}
use qonto.Prelude.Int.{ℤ, eqb_ℤ, ◌-ℤ◌}
use qonto.Go.Time.{Time}
use qonto.Model.Transfer.{Account, CreditTransfer}

-- idempotency_keys
pub record KeyRow : Type 0 where
  pub key : String
  pub response_status : ℤ

-- bulk_transfer_batches
pub record BatchRow : Type 0 where
  pub id : ℤ
  pub bank_account_id : ℤ
  pub idempotency_key : String
  pub total_amount_cents : ℤ

-- The columns of `transactions` that an insert gives.
pub record Posting : Type 0 where
  pub counterparty_name : String
  pub counterparty_iban : String
  pub counterparty_bic : String
  pub amount_cents : ℤ
  pub amount_currency : String
  pub bank_account_id : ℤ
  pub description : String
  pub batch_id : Option ℤ

-- transactions
pub record TransactionRow : Type 0 where
  pub id : ℤ
  pub created_at : Time
  pub posting : Posting

pub record Tables : Type 0 where
  pub accounts : List Account
  pub keys : List KeyRow
  pub batches : List BatchRow
  pub transactions : List TransactionRow

abbrev pub status_of : String → List KeyRow → Option ℤ
status_of k [] = none
status_of k (r ∷ rs) = if r.key == k then some r.response_status else status_of k rs

abbrev pub account_of : String → String → List Account → Option Account
account_of iban bic [] = none
account_of iban bic (a ∷ as_) =
    if a.iban == iban && a.bic == bic then some a else account_of iban bic as_

abbrev pub balance_of : ℤ → List Account → Option ℤ
balance_of id [] = none
balance_of id (a ∷ as_) = if eqb_ℤ a.id id then some a.balance_cents else balance_of id as_

-- UPDATE bank_accounts SET balance_cents = balance_cents - amount WHERE id = ...
abbrev pub debit : ℤ → ℤ → List Account → List Account
debit id amount [] = []
debit id amount (a ∷ as_) =
    (if eqb_ℤ a.id id then record a { balance_cents = a.balance_cents -ℤ amount } else a)
    ∷ debit id amount as_

abbrev pub add_key : String → ℤ → Tables → Tables
add_key k status t = record t { keys = record { key = k; response_status = status } ∷ t.keys }

-- PRIMARY KEY (id): no id stands twice.
abbrev pub IsKeyed : List Account → Type 0
IsKeyed [] = Unit
IsKeyed (a ∷ as_) = (balance_of a.id as_ ≡ none) × IsKeyed as_

abbrev pub add_batch : BatchRow → Tables → Tables
add_batch b t = record t { batches = b ∷ t.batches }

abbrev pub add_transactions : List TransactionRow → Tables → Tables
add_transactions rows t = record t { transactions = t.transactions ++ rows }

abbrev pub debit_in : ℤ → ℤ → Tables → Tables
debit_in id amount t = record t { accounts = debit id amount t.accounts }

-- The row that a credit transfer becomes, but for its id and time.
abbrev pub posting_of : ℤ → ℤ → CreditTransfer → Posting
posting_of account_id batch_id c = record {
  counterparty_name = c.counterparty_name;
  counterparty_iban = c.counterparty_iban;
  counterparty_bic = c.counterparty_bic;
  amount_cents = c.amount_cents;
  amount_currency = c.currency;
  bank_account_id = account_id;
  description = c.description;
  batch_id = some batch_id;
}
