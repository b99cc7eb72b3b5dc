-- ===== src/Program.antt =====
-- The program as cmd/server wires it: the service over the store, one transaction each.
pub mod Memory
pub mod Retry
pub mod Runs
pub mod Listing
pub mod Observed
pub mod Http
use qonto.Prelude.{◌≡◌}
use qonto.Go.Action.{Action}
use qonto.Go.Context.{Context}
use qonto.Model.Transfer.{BulkTransferRequest}
use qonto.Database.Engine.{Engine}
use qonto.Database.Laws.{IsPostgres}
use qonto.Service.Submit.{Response, submit_bulk_transfer}
use qonto.Service.Contract.{Settled}
use qonto.Service.Outcome.{Submitted}
use qonto.Service.Refinement.{submit_bulk_transfer-Submitted}
use qonto.Store.Laws.{repository, repository-RepositoryLaws}
use qonto.Txn.Laws.{view, transactor, transactor-Laws}

abbrev pub submit : (e : Engine) → Context → BulkTransferRequest → Action e.State Response
submit e = submit_bulk_transfer (repository e) (transactor e)

-- On an engine that keeps PostgreSQL's documented behaviour, a submission without an error leaves
-- the committed tables, and gives the response, as the specification says. With an error the
-- tables are as before, or the commit took place and only its acknowledgement was lost.
pub submit_settles :
    (e : Engine)
    → IsPostgres e
    → (ctx : Context) (req : BulkTransferRequest) (s : e.State)
    → Settled (view e) s (Submitted req (e.committed s)) (submit e ctx req s)
submit_settles e p ctx req s =
    submit_bulk_transfer-Submitted (view e) (repository-RepositoryLaws e p) (transactor e)
      (transactor-Laws e p) ctx req s
