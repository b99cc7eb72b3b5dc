-- ===== src/Lifecycle/Startup.antt =====
-- pkg/database/pool.go, migrate.go and bootstrap.go, pkg/server/runtime.go, cmd/server/main.go
use qonto.Prelude.{String, Bool, if◌then◌else◌}
use qonto.Prelude.Int.{ℤ, pos}
use qonto.Go.Errors.{Error, Result, ok, err, wrap}
use Prim.Native.String.{◌++◌ as ◌<>◌}
use qonto.Lifecycle.Flow.{
  parse_dsn, create_pool, ping, register_pool_metrics, open_migrate, migrate_up, run_seed,
  set_default_logger, close_migrate, close_pool, log_info, log_error, exit, Flow, done, does, tries,
  serves, bind, ◌>>=◌, attempt, wrapping, deferring,
}
use qonto.Lifecycle.Telemetry.{TelemetryConfig, Telemetry, new_telemetry, shutdown}

-- database.Config
pub record DatabaseConfig : Type 0 where
  pub dsn : String
  pub max_conns : ℤ

-- The configuration of cmd/server, but for that of the HTTP server.
pub record Config : Type 0 where
  pub database : DatabaseConfig
  pub telemetry : TelemetryConfig
  pub migrations_dir : String
  pub seed_on_startup : Bool

-- A call on the new pool, which is closed if it fails.
abbrev pub or_close : String → Result (Unit {0}) → Flow (Result (Unit {0}))
or_close message (ok _) = done (ok tt)
or_close message (err e) = does close_pool (done (err (wrap message e)))

unfoldable pub new_pool : DatabaseConfig → Flow (Result (Unit {0}))
unfolding ◌>>=◌
new_pool cfg = attempt "parse dsn" (parse_dsn cfg.dsn) >>= (λ _.
    attempt "create connection pool" (create_pool cfg.max_conns) >>= (λ _.
      tries ping (or_close "ping database")
      >>= (λ _. tries register_pool_metrics (or_close "register pool metrics"))))

-- `errors.Is(err, migrate.ErrNoChange)`, of golang-migrate, is a parameter.
module _ (is_no_change : Error → Bool) where
  abbrev pub migrated : Result (Unit {0}) → Result (Unit {0})
  migrated (ok _) = ok tt
  migrated (err e) = if is_no_change e then ok tt else err (wrap "run migrations" e)

  unfoldable pub migrate : String → String → Flow (Result (Unit {0}))
  unfolding ◌>>=◌ deferring
  migrate migrations_dir dsn =
      attempt "init migrate" (open_migrate ("file://" <> migrations_dir) dsn) >>= λ _.
      deferring close_migrate (tries migrate_up (λ r. done (migrated r)))

  unfoldable pub bootstrap : String → String → Bool → Flow (Result (Unit {0}))
  unfolding ◌>>=◌ wrapping migrate
  bootstrap migrations_dir dsn seed_on_startup =
      wrapping "migrate" (migrate migrations_dir dsn) >>= λ _.
      if seed_on_startup then attempt "seed" run_seed else done (ok tt)

-- `RunUntilSignal`, with `RunWithContext` for its function
unfoldable pub run_until_signal : Flow (Unit {0}) → Flow (Result (Unit {0}))
unfolding bind
run_until_signal cleanup = serves (λ r cancelled.
    let finish = bind cleanup (λ _. done r) in
    if cancelled then does (log_info "received shutdown signal, cleaning up") finish else finish)

abbrev pub report : String → Result (Unit {0}) → Flow (Unit {0})
report message (ok _) = done tt
report message (err e) = does (log_error message) (done tt)

unfoldable pub shut_down_telemetry : Telemetry → Flow (Unit {0})
unfolding bind shutdown
shut_down_telemetry t = bind (shutdown t) (report "shutdown telemetry")

abbrev pub exit_on_error : Result (Unit {0}) → Flow (Unit {0})
exit_on_error (ok _) = done tt
exit_on_error (err e) = does (log_error "fatal error") (does (exit (pos 1)) (done tt))

-- `env.Parse` has read the configuration, or failed.
module _ (parse_duration : String → Result ℤ) (is_no_change : Error → Bool) where
  unfoldable pub serve_with : Config → Telemetry → Flow (Result (Unit {0}))
  unfolding ◌>>=◌ wrapping deferring new_pool bootstrap run_until_signal shut_down_telemetry
  serve_with cfg telemetry = wrapping "init database pool" (new_pool cfg.database) >>= λ _.
      deferring close_pool (
        wrapping "bootstrap database"
          (bootstrap is_no_change cfg.migrations_dir cfg.database.dsn cfg.seed_on_startup)
        >>= λ _. run_until_signal (shut_down_telemetry telemetry))

  unfoldable pub run : Result Config → Flow (Result (Unit {0}))
  unfolding ◌>>=◌ wrapping new_telemetry serve_with
  run (err e) = done (err (wrap "parse config" e))
  run (ok cfg) =
      wrapping "init telemetry" (new_telemetry parse_duration cfg.telemetry) >>= λ telemetry.
      does set_default_logger (serve_with cfg telemetry)

  unfoldable pub main : Result Config → Flow (Unit {0})
  unfolding bind run
  main env = bind (run env) exit_on_error
