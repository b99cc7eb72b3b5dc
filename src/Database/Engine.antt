-- ===== src/Database/Engine.antt =====
-- The database behind pgx, which is not part of the program: an abstract state, the statements
-- that the program builds, and what PostgreSQL and pgx document of them.
use qonto.Prelude.{ℕ, String, Bool, Option, List}
use qonto.Prelude.Int.{ℤ}
use qonto.Go.Errors.{Error}
use qonto.Go.Time.{Time}
use qonto.Database.Schema.{Posting, TransactionRow, Tables}

-- A bound argument, or a column of a result row.
pub data Value : Type 0 where
  text : String → Value
  int : ℤ → Value
  timestamp : Time → Value

-- A squirrel condition: sq.Eq{column: value}, or sq.Expr(sql, args...).
pub data Condition : Type 0 where
  equals : String → Value → Condition
  expr : String → List Value → Condition

pub record Select : Type 0 where
  pub columns : List String
  pub table : String
  pub conditions : List Condition
  pub order_by : List String
  pub limit : Option ℕ
  pub suffix : String

pub record Update : Type 0 where
  pub table : String
  pub column : String
  pub value : Condition
  pub conditions : List Condition
  pub suffix : String

pub record Insert : Type 0 where
  pub table : String
  pub columns : List String
  pub values : List Value
  pub suffix : String

pub data Statement : Type 0 where
  select : Select → Statement
  update : Update → Statement
  insert : Insert → Statement
  copy_from : String → List String → List (List Value) → Statement
  raw : String → List Value → Statement

-- `broken` is a result whose rows stop with an error.
pub data Reply : Type 0 where
  failed : Error → Reply
  rows : List (List Value) → Reply
  broken : List (List Value) → Error → Reply

-- Where a statement runs: the open transaction, or a connection of the pool on its own.
pub data Target : Type 0 where
  pool tx : Target

-- `committed` is what other sessions read, `current` what the open transaction reads, and
-- `aborted` says that a statement of it has failed. `next_batch_id` and `stamp` are the ids and
-- times that the server will give to inserted rows. `to_sql` is the error of squirrel's `ToSql` on
-- a statement, if it has one.
pub record Engine : Type 1 where
  pub State : Type 0
  pub committed : State → Tables
  pub current : State → Tables
  pub aborted : State → Bool
  pub next_batch_id : State → ℤ
  pub stamp : State → List Posting → List TransactionRow
  pub to_sql : Statement → Option Error
  pub begin : State → Option Error × State
  pub commit : State → Option Error × State
  pub rollback : State → Option Error × State
  pub run : Target → Statement → State → Reply × State
