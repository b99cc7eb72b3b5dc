-- ===== src/Tests/LifecycleTests.antt =====
-- A process whose database answers no ping, and a server that is told to stop with two requests.
use qonto.Prelude.{◌≤◌, String, refl, ◌⊎◌, Bool, true, false}
use qonto.Prelude.Int.{ℤ, pos}
use qonto.Go.Errors.{Error, Result, ok}
use qonto.Lifecycle.Startup.{Config, main}
use qonto.Lifecycle.Watch.{start, Ended, Obeys}
use qonto.Lifecycle.Release.{main_releases}
use qonto.Lifecycle.Serve.{
  Serving, serving, returned, shutting_down, over, select_cancelled, listen_closed, close_done,
  run_result, server_closed, Own, Runs, launched, IsOver, own, world, stay, accept, cancel,
  timed_out, shutdown_ends, returns_before_drained,
}

abbrev config : Config
config = record {
  database = record { dsn = "postgres://app@db/bulk"; max_conns = pos 10 };
  telemetry = record {
    service_name = "qonto-bulk-transfer";
    otlp_endpoint = "lgtm:4317";
    otlp_insecure = true;
    metric_interval = "10s";
  };
  migrations_dir = "migrations";
  seed_on_startup = true;
}

abbrev ten_seconds : String → Result ℤ
ten_seconds text = ok (pos 10000000000)

abbrev never : Error → Bool
never e = false

main_releases_example : Obeys never (λ _. Ended) (main ten_seconds never (ok config)) start
main_releases_example = main_releases ten_seconds never (ok config)

returns_before_drained_example :
    Runs launched 3 (serving (returned (run_result server_closed)) shutting_down true true true 2)
returns_before_drained_example = returns_before_drained 2

shutdown_ends_example :
    (4 ≤ 4)
    × (IsOver (serving (returned (run_result server_closed)) over true true true 2)
        ⊎ ((s'' : Serving) × Own
              (serving (returned (run_result server_closed)) over true true true 2)
              s''))
shutdown_ends_example =
    shutdown_ends (world (world (world stay accept) accept) cancel) refl
      (own (own (own (own stay select_cancelled) listen_closed) close_done) timed_out)
