-- ===== src/Concurrency/System.antt =====
-- Sessions interleaved in any order.
use mathlib.Core.Logic.{ite}
use native.Mathlib.Decide.{ℕ_discrete}
use qonto.Prelude.{ℕ, String, ◌≡◌, ◌≢◌, true, some}
use qonto.Prelude.Int.{ℤ}
use qonto.Model.Transfer.{Account, BulkTransferRequest}
use qonto.Database.Schema.{Tables}
use qonto.Service.Submit.{Response}
use qonto.Concurrency.Session.{Stage, opening, answered, ended, holds_key, held_row, Move, Commit}

abbrev pub assign : (ℕ → Stage) → ℕ → Stage → ℕ → Stage
assign f i p j = ite (ℕ_discrete i j) p (f j)

pub record System : Type 0 where
  pub tables : Tables
  pub stage : ℕ → Stage

-- Session `i` submits `requests i`; PostgreSQL's `hashtext` gives the advisory lock of a key.
module _ (hashtext : String → ℤ) (requests : ℕ → BulkTransferRequest) where
  abbrev pub lock_of : ℕ → ℤ
  lock_of i = hashtext (requests i).idempotency_key

  -- No session but `i` holds the advisory lock of `i`'s key.
  abbrev pub KeyFree : (ℕ → Stage) → ℕ → Type 0
  KeyFree f i = (j : ℕ) → i ≢ j → holds_key (f j) ≡ true → lock_of i ≢ lock_of j

  -- No session but `i` has locked the row of an account.
  abbrev pub RowFree : (ℕ → Stage) → ℕ → ℤ → Type 0
  RowFree f i id = (j : ℕ) → i ≢ j → (a : Account) → held_row (f j) ≡ some a → id ≢ a.id

  pub data Step (s : System) : System → Type 0 where
    move :
        (i : ℕ) {p : Stage}
        → Move (KeyFree s.stage i) (RowFree s.stage i) s.tables (requests i) (s.stage i) p
        → Step s (record { tables = s.tables; stage = assign s.stage i p })
    commit :
        (i : ℕ) {r : Response} {t : Tables}
        → Commit s.tables (requests i) (s.stage i) r t
        → Step s (record { tables = t; stage = assign s.stage i (answered r) })
    -- The commit takes place and its acknowledgement is lost: the caller has an error.
    commit_unacknowledged :
        (i : ℕ) {r : Response} {t : Tables}
        → Commit s.tables (requests i) (s.stage i) r t
        → Step s (record { tables = t; stage = assign s.stage i ended })
    -- An error, a panic or a lost connection, at any time: PostgreSQL rolls back.
    abandon : (i : ℕ) → Step s (record { tables = s.tables; stage = assign s.stage i ended })

  -- From tables `t`, with every session at its start.
  pub data Interleaved (t : Tables) : System → Type 0 where
    all_opening : Interleaved t (record { tables = t; stage = λ _. opening })
    and_then : {s s' : System} → Interleaved t s → Step s s' → Interleaved t s'
