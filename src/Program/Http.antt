-- ===== src/Program/Http.antt =====
-- The program behind its HTTP server, as cmd/server/main.go wires it, with all its telemetry.
pub mod Plain
pub mod Answers
use qonto.Prelude.{ℕ, String, Bool, Bytes, Option}
use qonto.Go.Errors.{Error, Result, ok, err, other}
use qonto.Go.Time.{Time}
use qonto.Go.Context.{Context}
use qonto.Database.Engine.{Engine, Statement, Target}
use qonto.Lifecycle.HttpServer.{HttpConfig, Server, new_server}
use qonto.Platform.World.{World}
use qonto.Platform.Middleware.{HttpRequest, HttpHandler}
use qonto.Program.Observed.{observed_submit}
use qonto.Server.Response.{Body}
use qonto.Server.Handler.{Service, Library}
use qonto.Server.Http.{serve_http}
use qonto.Service.History.{list_transaction_history}
use qonto.Store.Observed.{observed_repository}
use qonto.Txn.{Exit, returned, panicked}

-- A submission does not panic: its exit is always `returned`.
abbrev pub result_of : {A : Type 0} → Exit A → Result A
result_of (returned r) = r
result_of (panicked p) = err (other p)

module _ (clock : ℕ → Time) (is_recording : ℕ → Bool) (sql_text : Statement → Bytes)
    (args : Statement → Option Bytes) (e : Engine) where
  abbrev pub observed_service : ℕ → Service (World e.State)
  observed_service span = record {
    submit_bulk_transfer = λ ctx req w.
        let (x, w') = observed_submit clock is_recording sql_text args e span ctx req w in
        (result_of x, w');
    list_transaction_history =
        list_transaction_history (observed_repository clock is_recording sql_text args span e);
  }

  module _ (encode : Body → Bytes) (lib : Library) (format_time : Time → String)
      (pattern_of : HttpRequest → Option (String × Bytes)) (not_found : HttpHandler e.State)
      (trace_ids : ℕ → Option (Bytes × Bytes)) where
    abbrev pub http_handler : HttpHandler e.State
    http_handler =
        serve_http encode lib format_time observed_service clock pattern_of not_found trace_ids

    -- `repo`, `transactor`, `svc`, `handler` and `httpServer` of `run`
    unfoldable pub http_server : HttpConfig → Server (HttpHandler e.State)
    unfolding serve_http new_server
    http_server cfg = new_server cfg http_handler
