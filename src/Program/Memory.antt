-- ===== src/Program/Memory.antt =====
-- An engine in memory, for the statements of a submission: it has the documented behaviour that
-- the theorems assume.
pub mod Laws
pub mod Returns
use qonto.Prelude.{
  ℕ, suc, String, ◌≡◌, refl, Bool, true, false, Option, none, some, List, [], ◌∷◌, length,
  if◌then◌else◌,
}
use qonto.Prelude.Int.{ℤ, pos, leb_ℤ, ◌-ℤ◌}
use qonto.Go.Errors.{Error, pg_error, other}
use qonto.Database.Schema.{
  Tables, Posting, TransactionRow, status_of, account_of, balance_of, add_key, add_batch,
  add_transactions, debit_in, IsKeyed,
}
use qonto.Database.Rows.{debit-IsKeyed}
use qonto.Database.Engine.{
  Engine, Value, text, int, Condition, equals, expr, Select, Update, Insert, Statement, select,
  update, insert, copy_from, raw, Reply, Target,
}
use qonto.Model.Transfer.{Account}

pub record Stored : Type 0 where
  pub tables : Tables
  pub keyed : IsKeyed tables.accounts

pub record MemoryState : Type 0 where
  pub committed : Stored
  pub current : Stored
  pub dead : Bool

pub data Outcome : Type 0 where
  refuse : String → Outcome
  answer : List (List Value) → Stored → Outcome

abbrev pub account_values : Account → List Value
account_values a =
    int a.id ∷ text a.organization_name ∷ int a.balance_cents ∷ text a.iban ∷ text a.bic ∷ []

abbrev pub rows_of {ℓ} : {A : Type ℓ} → (A → List Value) → Option A → List (List Value)
rows_of row none = []
rows_of row (some a) = row a ∷ []

abbrev pub run_select : List Condition → Tables → List (List Value)
run_select (equals _ (text k) ∷ []) t = rows_of (λ n. int n ∷ []) (status_of k t.keys)
run_select (equals _ (text iban) ∷ equals _ (text bic) ∷ []) t =
    rows_of account_values (account_of iban bic t.accounts)
run_select _ t = []

abbrev pub keep_accounts : Stored → Tables → Stored
keep_accounts s t = record { tables = record t { accounts = s.tables.accounts }; keyed = s.keyed }

abbrev pub run_update : Condition → List Condition → Stored → Outcome
run_update (expr _ (int amount ∷ [])) (equals _ (int id) ∷ []) s =
    answer (rows_of (λ b. int (b -ℤ amount) ∷ []) (balance_of id s.tables.accounts)) (record {
      tables = debit_in id amount s.tables;
      keyed = debit-IsKeyed id amount s.tables.accounts s.keyed;
    })
run_update _ _ s = refuse "42601"

abbrev pub insert_fresh : String → ℤ → Option ℤ → Stored → Outcome
insert_fresh k status none s =
    answer [] (record { tables = add_key k status s.tables; keyed = s.keyed })
insert_fresh k status (some _) s = refuse "23505"

abbrev pub next_id : Tables → ℤ
next_id t = pos (suc (length t.batches))

abbrev pub insert_checked : ℤ → String → ℤ → Bool → Stored → Outcome
insert_checked account_id k total true s = answer ((int (next_id s.tables) ∷ []) ∷ []) (record {
  tables =
      add_batch
        (record {
          id = next_id s.tables;
          bank_account_id = account_id;
          idempotency_key = k;
          total_amount_cents = total;
        })
        s.tables;
  keyed = s.keyed;
})
insert_checked account_id k total false s = refuse "23514"

abbrev pub next_account_id : Tables → ℤ
next_account_id t = pos (suc (length t.accounts))

abbrev pub open_account :
    (name : String) (cents : ℤ) (iban bic : String) (s : Stored) (o : Option ℤ)
    → balance_of (next_account_id s.tables) s.tables.accounts ≡ o
    → Outcome
open_account name cents iban bic s none fresh =
    answer ((int (next_account_id s.tables) ∷ []) ∷ []) (record {
      tables = record s.tables {
        accounts =
            record {
              id = next_account_id s.tables;
              organization_name = name;
              balance_cents = cents;
              iban = iban;
              bic = bic;
            }
            ∷ s.tables.accounts;
      };
      keyed = (fresh, s.keyed);
    })
open_account name cents iban bic s (some _) taken = refuse "23505"

abbrev pub run_insert : List Value → Stored → Outcome
run_insert (text k ∷ int status ∷ []) s = insert_fresh k status (status_of k s.tables.keys) s
run_insert (int account_id ∷ text k ∷ int total ∷ []) s =
    insert_checked account_id k total (leb_ℤ (pos 1) total) s
run_insert (text name ∷ int cents ∷ text iban ∷ text bic ∷ []) s =
    open_account name cents iban bic s (balance_of (next_account_id s.tables) s.tables.accounts)
      refl
run_insert _ s = refuse "42601"

abbrev pub posting_at : List Value → Option Posting
posting_at
      (text name
        ∷ text iban
        ∷ text bic
        ∷ int amount
        ∷ text currency
        ∷ int account_id
        ∷ text description
        ∷ int batch
        ∷ []) =
    some (record {
      counterparty_name = name;
      counterparty_iban = iban;
      counterparty_bic = bic;
      amount_cents = amount;
      amount_currency = currency;
      bank_account_id = account_id;
      description = description;
      batch_id = some batch;
    })
posting_at
      (text name
        ∷ text iban
        ∷ text bic
        ∷ int amount
        ∷ text currency
        ∷ int account_id
        ∷ text description
        ∷ []) =
    some (record {
      counterparty_name = name;
      counterparty_iban = iban;
      counterparty_bic = bic;
      amount_cents = amount;
      amount_currency = currency;
      bank_account_id = account_id;
      description = description;
      batch_id = none;
    })
posting_at _ = none

abbrev pub cons_posting : Option Posting → List Posting → List Posting
cons_posting none ps = ps
cons_posting (some p) ps = p ∷ ps

abbrev pub postings_of : List (List Value) → List Posting
postings_of [] = []
postings_of (vs ∷ vss) = cons_posting (posting_at vs) (postings_of vss)

-- Ids count up from `n`, and the clock stands at the epoch.
abbrev pub stamp_from : ℕ → List Posting → List TransactionRow
stamp_from n [] = []
stamp_from n (p ∷ ps) =
    record { id = pos n; created_at = pos 0; posting = p } ∷ stamp_from (suc n) ps

abbrev pub stamp_in : Tables → List Posting → List TransactionRow
stamp_in t ps = stamp_from (suc (length t.transactions)) ps

abbrev pub run_in : Statement → Stored → Outcome
run_in (select q) s = answer (run_select q.conditions s.tables) s
run_in (update q) s = run_update q.value q.conditions s
run_in (insert q) s = run_insert q.values s
run_in (copy_from _ _ vss) s = answer [] (record {
  tables = add_transactions (stamp_in s.tables (postings_of vss)) s.tables;
  keyed = s.keyed;
})
run_in (raw _ _) s = answer [] s

abbrev pub step : Bool → Outcome → MemoryState → Reply × MemoryState
step true o s = (Reply.failed (pg_error "25P02"), s)
step false (refuse code) s = (Reply.failed (pg_error code), record s { dead = true })
step false (answer rs t) s = (Reply.rows rs, record s { current = t })

abbrev pub commit_if : Bool → MemoryState → Option Error × MemoryState
commit_if true s = (
  some (other "commit unexpectedly resulted in rollback"),
  record s { current = s.committed; dead = false },
)
commit_if false s = (none, record s { committed = s.current })

-- Outside a transaction only the rows of a table are counted.
abbrev pub run_pool : List Condition → MemoryState → Reply × MemoryState
run_pool [] s = (Reply.rows ((int (pos (length s.committed.tables.accounts)) ∷ []) ∷ []), s)
run_pool (_ ∷ _) s = (Reply.failed (other "no connection"), s)

abbrev pub run_at : Target → Statement → MemoryState → Reply × MemoryState
run_at Target.pool (select q) s = run_pool q.conditions s
run_at Target.pool q s = (Reply.failed (other "no connection"), s)
run_at Target.tx q s = step s.dead (run_in q s.current) s

abbrev pub memory : Engine
memory = record {
  State = MemoryState;
  committed = λ s. s.committed.tables;
  current = λ s. s.current.tables;
  aborted = λ s. s.dead;
  next_batch_id = λ s. next_id s.current.tables;
  stamp = λ s ps. stamp_in s.current.tables ps;
  to_sql = λ _. none;
  begin = λ s. (none, record s { current = s.committed; dead = false });
  commit = λ s. commit_if s.dead s;
  rollback = λ s. (none, record s { current = s.committed; dead = false });
  run = run_at;
}
