-- ===== src/Lifecycle/Telemetry.antt =====
-- pkg/observability/telemetry.go. What a provider is built with, but for the exporter and the
-- interval, is left out: the sampler, the batching and the resource.
use text.Mathlib.Text.{◌==◌}
use qonto.Prelude.{String, Bool, true, false, none, some, if◌then◌else◌}
use qonto.Prelude.Int.{ℤ}
use qonto.Go.Errors.{Result, ok, err, wrap}
use qonto.Lifecycle.Flow.{
  Signal, traces, metrics, logs, create_exporter, force_flush, shut_down, merge_resource,
  set_noop_provider, new_provider, set_provider, set_text_map_propagator, Flow, done, does, ◌>>=◌,
  attempt,
}

-- Config, but for the sample ratio.
pub record TelemetryConfig : Type 0 where
  pub service_name : String
  pub otlp_endpoint : String
  pub otlp_insecure : Bool
  pub metric_interval : String

-- Whether each provider is there, or nil.
pub record Telemetry : Type 0 where
  pub tracer_provider : Bool
  pub meter_provider : Bool
  pub logger_provider : Bool

abbrev pub disabled : Telemetry
disabled = record { tracer_provider = false; meter_provider = false; logger_provider = false }

abbrev pub new_exporter : TelemetryConfig → String → Signal → Flow (Result (Unit {0}))
new_exporter cfg message signal =
    attempt message (create_exporter signal cfg.otlp_endpoint cfg.otlp_insecure)

unfoldable pub new_tracer_provider : TelemetryConfig → Flow (Result (Unit {0}))
unfolding ◌>>=◌
new_tracer_provider cfg = new_exporter cfg "create otlp trace exporter" traces >>= λ _.
    does (new_provider traces none) (done (ok tt))

unfoldable pub new_logger_provider : TelemetryConfig → Flow (Result (Unit {0}))
unfolding ◌>>=◌
new_logger_provider cfg = new_exporter cfg "create otlp log exporter" logs >>= λ _.
    does (new_provider logs none) (done (ok tt))

-- Flush and stop one provider, if it is there.
unfoldable pub shut_down_provider : Bool → Signal → String → String → Flow (Result (Unit {0}))
unfolding ◌>>=◌
shut_down_provider present signal flushing stopping =
    if present
    then (attempt flushing (force_flush signal) >>= λ _. attempt stopping (shut_down signal))
    else done (ok tt)

unfoldable pub shutdown : Telemetry → Flow (Result (Unit {0}))
unfolding ◌>>=◌ shut_down_provider
shutdown t =
    shut_down_provider t.tracer_provider traces "flush tracer provider" "shutdown tracer provider"
    >>= (λ _.
        shut_down_provider t.meter_provider metrics "flush meter provider" "shutdown meter provider"
        >>= (λ _.
            shut_down_provider t.logger_provider logs "flush logger provider"
              "shutdown logger provider"))

-- `time.ParseDuration` is not of this repository.
module _ (parse_duration : String → Result ℤ) where
  unfoldable pub new_meter_provider : TelemetryConfig → Flow (Result (Unit {0}))
  unfolding ◌>>=◌
  new_meter_provider cfg = elim (parse_duration cfg.metric_interval) [
    | err e ↦ done (err (wrap "parse OTEL_METRIC_EXPORT_INTERVAL" e))
    | ok interval ↦ new_exporter cfg "create otlp metric exporter" metrics >>= λ _.
        does (new_provider metrics (some interval)) (done (ok tt))
  ]

  unfoldable pub new_telemetry : TelemetryConfig → Flow (Result Telemetry)
  unfolding ◌>>=◌ new_tracer_provider new_meter_provider new_logger_provider
  new_telemetry cfg =
      if cfg.otlp_endpoint == ""
      then does (set_noop_provider traces)
          (does (set_noop_provider metrics) (does (set_noop_provider logs) (done (ok disabled))))
      else (attempt "build otel resource" (merge_resource cfg.service_name) >>= λ _.
          (new_tracer_provider cfg >>= λ _. does (set_provider traces) (
            does set_text_map_propagator (
              new_meter_provider cfg >>= λ _. does (set_provider metrics) (
                new_logger_provider cfg >>= λ _. does (set_provider logs) (
                  done (
                    ok (record {
                      tracer_provider = true;
                      meter_provider = true;
                      logger_provider = true;
                    }))))))))
