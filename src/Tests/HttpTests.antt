-- ===== src/Tests/HttpTests.antt =====
-- A request to the whole program, and where its tests look for the migrations.
use qonto.Database.Engine.{Engine}
use qonto.Database.Traced.{traced_control, traced_run}
use qonto.Go.Errors.{other, err, wrap, is_no_rows}
use qonto.Platform.Span.{unset, ok_status, error_status}
use qonto.Program.Observed.{observed_submit}
use qonto.Program.Observed.Hidden.{commit_failure_hidden}
use qonto.Txn.{returned}
use qonto.Txn.Observed.Status.{status_after}
use qonto.Prelude.{some, ◌≡◌, refl, codes, none, List, []}
use qonto.Prelude.Int.{pos, ◌-ℤ◌}
use qonto.Store.Idempotency.{advisory_lock, find_idempotency_record_status, record_idempotency}
use qonto.Store.Session.{db}
use qonto.Store.Observed.{find_account_timed}
use qonto.Model.Transfer.{total_cents, sum_from}
use qonto.Go.Int64.{add64}
use qonto.Store.Accounts.{insert_batch, debit_account}
use qonto.Store.Transactions.{insert_transactions}
use qonto.Tests.ObservedTests.{set_status, ticking, sampled, any_sql, no_args, quiet}
use qonto.Tests.MiddlewareTests.{no_ids, asked, posting, matched}
use qonto.Tests.Sample.{affordable, no_context, ready}
use qonto.Platform.Middleware.{HttpHandler}
use qonto.Platform.World.{Emission, World}
use qonto.Program.Memory.{memory, MemoryState}
use qonto.Program.Http.{observed_service, http_handler}
use qonto.Program.Http.Answers.{plain_handled, http_answers}
use qonto.Server.Handler.{Handled}
use qonto.Server.Http.{write_response}
use qonto.Server.Http.Telemetry.{IsAccounted}
use qonto.Server.Routes.{submit_endpoint, routes}
use qonto.TestUtil.{migrations_dir, admin_port}
use qonto.Tests.RetryTests.{reads_sent}

-- Not used: every request matches.
abbrev silent : HttpHandler MemoryState
silent span r w = record { events = []; panicked = none; world = w }

http_answers_example :
    let k =
      plain_handled ticking sampled any_sql no_args memory
        (λ _. [])
        reads_sent
        (λ _. "then")
        matched
        silent
        no_ids
        submit_endpoint
        []
        asked
        ready in
    let y =
      http_handler ticking sampled any_sql no_args memory
        (λ _. [])
        reads_sent
        (λ _. "then")
        matched
        silent
        no_ids
        0
        asked
        quiet in
    (y.events ≡ write_response (λ _. []) k.written)
    × (y.panicked ≡ none)
    × (y.world.state ≡ k.state)
    × (h : Handled (World MemoryState)) × (h.metrics ≡ k.metrics)
    × (h.failure ≡ k.failure)
    × (xs : List Emission) × IsAccounted
        (λ _. [])
        reads_sent
        (λ _. "then")
        (observed_service ticking sampled any_sql no_args memory)
        ticking
        matched
        silent
        no_ids
        posting
        0
        asked
        quiet
        h
        xs
        y
unfolding routes
http_answers_example =
    http_answers ticking sampled any_sql no_args memory (λ _. []) reads_sent (λ _. "then") matched
      silent no_ids "POST /transfers/bulk" [] posting 0 asked quiet refl refl

migrations_found :
    migrations_dir (codes "/srv/qonto/pkg/testutil/database.go") ≡ codes "/srv/qonto/migrations"
unfolding migrations_dir
migrations_found = refl

default_port : admin_port (λ _. "") ≡ "5433"
unfolding admin_port
default_port = refl

-- A server that loses the connection at every commit, before it takes place.
abbrev unlucky : Engine
unlucky = record memory { commit = λ s. (some (other "connection reset"), s) }

commit_failure_hidden_example :
    let (r, w') =
      observed_submit ticking sampled any_sql no_args unlucky 0 no_context affordable quiet in
    (r ≡ returned (err (wrap "commit transaction" (other "connection reset"))))
    × (status_after set_status (λ _. "reset") 1 unset w'.emitted ≡ ok_status)
unfolding traced_control advisory_lock traced_run db find_idempotency_record_status is_no_rows
    find_account_timed total_cents sum_from add64 insert_batch insert_transactions debit_account
    ◌-ℤ◌ record_idempotency
commit_failure_hidden_example =
    commit_failure_hidden ticking sampled any_sql no_args unlucky set_status (λ _. "reset")
      (λ s. elim s as (λ t. set_status ok_status t ≡ ok_status) [
        | unset ↦ refl
        | ok_status ↦ refl
        | error_status t ↦ refl
      ])
      (λ s. refl) 0 no_context affordable quiet (record { status_code = pos 204; body = none })
      (other "connection reset") refl refl refl
