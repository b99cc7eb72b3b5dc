-- ===== src/Lifecycle/Release.antt =====
-- On every path of the process, what was opened is closed.
use text.Mathlib.Text.{◌==◌}
use qonto.Prelude.{
  String, Bool, true, false, ◌≡◌, refl, ◌⊎◌, inl, inr, Bool-cases, List, [], ◌∷◌, if◌then◌else◌,
}
use qonto.Prelude.Int.{ℤ, pos}
use qonto.Go.Errors.{Error, Result, ok, err}
use qonto.Lifecycle.Flow.{
  Signal, traces, metrics, logs, done, close_pool, bind, ◌>>=◌, wrapping, deferring,
}
use qonto.Lifecycle.Telemetry.{
  Telemetry, disabled, new_tracer_provider, new_meter_provider, new_logger_provider, new_telemetry,
  shut_down_provider, shutdown,
}
use qonto.Lifecycle.Startup.{
  Config, new_pool, migrate, bootstrap, run_until_signal, shut_down_telemetry, serve_with, run,
  exit_on_error, main,
}
use qonto.Lifecycle.Watch.{PoolState, opened, closed, is_open, start, Ended, Obeys}

abbrev pub all_signals : List Signal
all_signals = traces ∷ metrics ∷ logs ∷ []

abbrev pub enabled : Telemetry
enabled = record { tracer_provider = true; meter_provider = true; logger_provider = true }

abbrev pub built_by : Telemetry → List Signal
built_by t = if t.tracer_provider then all_signals else []

on_result :
    (P : Result (Unit {0}) → Type 0)
    → P (ok tt)
    → ((e : Error) → P (err e))
    → (r : Result (Unit {0})) → P r
on_result P h g (ok _) = h
on_result P h g (err e) = g e

Result-cases : {A : Type 0} (r : Result A) → ((a : A) × r ≡ ok a) ⊎ ((e : Error) × r ≡ err e)
Result-cases (ok a) = inl (a, refl)
Result-cases (err e) = inr (e, refl)

on_bool : (P : Bool → Type 0) → P true → P false → (b : Bool) → P b
on_bool P h g true = h
on_bool P h g false = g

-- The end of a run that has not served.
unserved :
    {p : PoolState} {current : Bool} {built : List Signal}
    → is_open p ≡ false
    → Ended (record start { pool = p; current = current; built = built; exit_code = pos 1 })
unserved h = record {
  pool_closed = h;
  migrations_closed = refl;
  served_if_zero = λ e. cc;
  stopped_if_served = λ e. cc;
}

-- The end of one that has.
left :
    {built flushed stopped : List Signal} {code : ℤ} {reported : Bool}
    → (reported ≡ true) ⊎ ((flushed ≡ built) × (stopped ≡ built))
    → Ended (record start {
      pool = closed;
      current = true;
      served = true;
      built = built;
      flushed = flushed;
      stopped = stopped;
      reported = reported;
      exit_code = code;
    })
left h = record {
  pool_closed = refl;
  migrations_closed = refl;
  served_if_zero = λ e. refl;
  stopped_if_served = λ e. h;
}

module _ (parse_duration : String → Result ℤ) (is_no_change : Error → Bool) where
  -- `Shutdown`, `Close` and the exit, after the server has returned.
  abbrev Shutdown : Telemetry → Result (Unit {0}) → Type 0
  Shutdown t r =
      Obeys is_no_change (λ _. Ended)
        (bind (deferring close_pool (bind (shut_down_telemetry t) (λ _. done r))) exit_on_error)
        (record start { pool = opened; current = true; served = true; built = built_by t })

  disabled-Shutdown : (r : Result (Unit {0})) → Shutdown disabled r
  unfolding shut_down_telemetry shutdown shut_down_provider deferring bind ◌>>=◌ Obeys
  disabled-Shutdown (ok _) = left (inr (refl, refl))
  disabled-Shutdown (err e) = left (inr (refl, refl))

  enabled-Shutdown : (r : Result (Unit {0})) → Shutdown enabled r
  unfolding shut_down_telemetry shutdown shut_down_provider deferring bind ◌>>=◌ Obeys
  enabled-Shutdown (ok _) =
      on_result _
        (on_result _
          (on_result _
            (on_result _
              (on_result _ (on_result _ (left (inr (refl, refl))) (λ e. left (inl refl)))
                (λ e. left (inl refl)))
              (λ e. left (inl refl)))
            (λ e. left (inl refl)))
          (λ e. left (inl refl)))
        (λ e. left (inl refl))
  enabled-Shutdown (err e) =
      on_result _
        (on_result _
          (on_result _
            (on_result _
              (on_result _ (on_result _ (left (inr (refl, refl))) (λ e. left (inl refl)))
                (λ e. left (inl refl)))
              (λ e. left (inl refl)))
            (λ e. left (inl refl)))
          (λ e. left (inl refl)))
        (λ e. left (inl refl))

  abbrev Serve : Config → Telemetry → Type 0
  Serve cfg t =
      Obeys is_no_change (λ _. Ended)
        (bind (serve_with parse_duration is_no_change cfg t) exit_on_error)
        (record start { built = built_by t })

  -- Everything after the telemetry is there.
  Shutdown-Serve :
      (cfg : Config) (t : Telemetry) → ((r : Result (Unit {0})) → Shutdown t r) → Serve cfg t
  unfolding serve_with new_pool bootstrap migrate run_until_signal wrapping deferring bind ◌>>=◌
      Obeys
  Shutdown-Serve cfg t h = elim (Bool-cases cfg.seed_on_startup) [
    | inl seeded ↦ rw seeded (
        on_result _
          (on_result _
            (on_result _
              (on_result _
                (on_result _
                  (on_result _ (on_result _ (λ r. on_bool _ (h r) (h r)) (λ e. unserved refl)) (λ e.
                    elim (Bool-cases (is_no_change e)) [
                      | inl same ↦
                          rw same (on_result _ (λ r. on_bool _ (h r) (h r)) (λ e. unserved refl))
                      | inr broken ↦ rw broken (unserved refl)
                    ]))
                  (λ e. unserved refl))
                (λ e. unserved refl))
              (λ e. unserved refl))
            (λ e. unserved refl))
          (λ e. unserved refl))
    | inr bare ↦ rw bare (
        on_result _
          (on_result _
            (on_result _
              (on_result _
                (on_result _
                  (on_result _ (λ r. on_bool _ (h r) (h r))
                    (λ e. elim (Bool-cases (is_no_change e)) [
                      | inl same ↦ rw same (λ r. on_bool _ (h r) (h r))
                      | inr broken ↦ rw broken (unserved refl)
                    ]))
                  (λ e. unserved refl))
                (λ e. unserved refl))
              (λ e. unserved refl))
            (λ e. unserved refl))
          (λ e. unserved refl))
  ]

  -- Whatever the configuration and whichever of its calls fail: no call is made out of place (a
  -- connection pool is used only while it is open, the server and the seed only start on a schema
  -- that is up to date, telemetry is stopped only after the server), and at the end the pool and
  -- golang-migrate are closed, the exit code is 0 only if the server ran, and if it ran then each
  -- provider that exports was flushed and stopped or the failure of that was logged.
  pub main_releases :
      (env : Result Config)
      → Obeys is_no_change (λ _. Ended) (main parse_duration is_no_change env) start
  unfolding main run new_telemetry new_tracer_provider new_meter_provider new_logger_provider
      wrapping bind ◌>>=◌ Obeys
  main_releases (err e) = unserved refl
  main_releases (ok cfg) = elim (Bool-cases (cfg.telemetry.otlp_endpoint == "")) [
    | inl off ↦ rw off (Shutdown-Serve cfg disabled disabled-Shutdown)
    | inr on ↦ rw on (
        on_result _
          (on_result _
            (elim (Result-cases (parse_duration cfg.telemetry.metric_interval)) [
              | inl (interval, read) ↦ rw read (
                  on_result _
                    (on_result _ (Shutdown-Serve cfg enabled enabled-Shutdown) (λ e. unserved refl))
                    (λ e. unserved refl))
              | inr (e, unread) ↦ rw unread (unserved refl)
            ])
            (λ e. unserved refl))
          (λ e. unserved refl))
  ]
