-- ===== src/Program/Observed.antt =====
-- A submission with all that pkg/txn and pkg/database emit about it: `Atomic` with its telemetry, on
-- the traced engine.
pub mod Simulation
pub mod Statements
pub mod Calls
pub mod Counted
pub mod Submission
pub mod Hidden
use qonto.Prelude.{ℕ, suc, String, Bool, Bytes, Option}
use qonto.Go.Errors.{Error}
use qonto.Go.Time.{Time}
use qonto.Go.Context.{Context}
use qonto.Model.Transfer.{BulkTransferRequest}
use qonto.Database.Engine.{Engine, Statement, Target}
use qonto.Database.Traced.{traced_control}
use qonto.Platform.World.{World}
use qonto.Service.Submit.{Response}
use qonto.Service.Observed.{submit_observed, run_observed}
use qonto.Store.Observed.{observed_repository}
use qonto.Txn.{Exit, returned}
use qonto.Txn.Observed.{atomic_observed}

module _ (clock : ℕ → Time) (is_recording : ℕ → Bool) (sql_text : Statement → Bytes)
    (args : Statement → Option Bytes) (e : Engine) where
  -- The function inside `Atomic`, on the repository over the traced engine.
  abbrev pub observed_body :
      BulkTransferRequest → ℕ → Context → World e.State → Exit Response × World e.State
  observed_body req span ctx w =
      let repo = observed_repository clock is_recording sql_text args span e in
      let (r, w') = run_observed repo span (submit_observed req ctx) w in (returned r, w')

  -- Begin, commit and rollback, where `Atomic` passes its context with its own span.
  abbrev pub control :
      Context
      → ℕ
      → String
      → (e.State → Option Error × e.State)
      → World e.State
      → Option Error × World e.State
  control ctx span = traced_control clock is_recording sql_text args ctx span e

  -- `StartSpan` of `Atomic` gives the next span, in which the transaction and its statements run.
  unfoldable pub observed_submit :
      ℕ → Context → BulkTransferRequest → World e.State → Exit Response × World e.State
  unfolding atomic_observed
  observed_submit parent ctx req w =
      let span = suc w.spans in
      atomic_observed clock (control ctx span "begin" e.begin) (control ctx span "commit" e.commit)
        (control ctx span "rollback" e.rollback) parent ctx (observed_body req) w
