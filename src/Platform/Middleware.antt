-- ===== src/Platform/Middleware.antt =====
-- `MetricsMiddleware` of pkg/server/metrics.go and `LoggingMiddleware` of pkg/server/middleware.go,
-- around a handler that may panic.
pub mod Log
pub mod Gauge
use qonto.Prelude.{ℕ, suc, ◌/◌, Bytes, codes, String, Option, none, some, List, [], ◌∷◌, ◌++◌}
use qonto.Prelude.Int.{ℤ, pos, negsuc, ◌-ℤ◌, neg}
use qonto.Go.Time.{Time}
use qonto.Go.Context.{Context}
use qonto.Platform.Instruments.{Attribute, text, int, http_metrics}
use qonto.Platform.Recorder.{Event, new_recorder, served, log_line}
use qonto.Platform.World.{Emission, added, timed, span_ended, logged, World, emit, start_span, now}

-- The request, as far as the program reads it.
pub record HttpRequest : Type 0 where
  pub ctx : Context
  pub method : Bytes
  pub path : Bytes
  pub body : Option Bytes  -- `none`: it cannot be read
  pub idempotency_key : String
  pub limit : Bytes
  pub cursor : Bytes

-- What a handler did: its calls of the response writer, the value that it panicked with, and what
-- it left.
pub record Served (S : Type 0) : Type 0 where
  pub events : List Event
  pub panicked : Option String
  pub world : World S

-- A handler of net/http, given the span of the request's context.
abbrev pub HttpHandler : Type 0 → Type 0
HttpHandler S = ℕ → HttpRequest → World S → Served S

-- `Milliseconds()` of a duration rounds towards 0.
unfoldable pub milliseconds : ℤ → ℤ
unfolding neg
milliseconds (pos n) = pos (n / 1_000_000)
milliseconds (negsuc n) = neg (pos (suc n / 1_000_000))

abbrev pub red_labels : Bytes → HttpRequest → List Attribute
red_labels route r = text "method" r.method ∷ text "route" route ∷ []

module _ (clock : ℕ → Time) {S : Type 0} where
  -- Behind the handler, where it did not panic.
  unfoldable pub count_response : List Attribute → ℤ → Time → World S → World S
  count_response labels status start w =
      let counted =
        emit (added http_metrics.requests_total (pos 1) (labels ++ (int "status_code" status ∷ [])))
          w in
      let (end, w') = now clock counted in
      emit (timed http_metrics.duration (end -ℤ start) labels) w'

  abbrev pub unless_panicked : Option String → (World S → World S) → World S → World S
  unless_panicked none f w = f w
  unless_panicked (some _) f w = w

  unfoldable pub metrics_middleware : Bytes → HttpHandler S → HttpHandler S
  unfolding count_response served
  metrics_middleware route next span r w =
      let labels = red_labels route r in
      let (start, w1) = now clock (emit (added http_metrics.in_flight (pos 1) labels) w) in
      let x = next span r w1 in
      record x {
        world = emit (added http_metrics.in_flight (neg (pos 1)) labels) (
            unless_panicked x.panicked
              (count_response labels (served x.events new_recorder).status start) x.world);
      }

  -- `trace_ids` gives the ids of the trace and of the span, where they are valid.
  module _ (trace_ids : ℕ → Option (Bytes × Bytes)) where
    unfoldable pub log_response : ℕ → HttpRequest → List Event → Time → World S → World S
    unfolding served log_line milliseconds
    log_response span r events start w =
        let (end, w') = now clock w in
        emit
          (logged (
            log_line r.method r.path (served events new_recorder) (milliseconds (end -ℤ start))
              (trace_ids span)))
          w'

    unfoldable pub logging_middleware : HttpHandler S → HttpHandler S
    unfolding log_response
    logging_middleware next parent r w =
        let (start, w1) = now clock w in
        let (span, w2) = start_span parent (r.method ++ (codes " " ++ r.path)) [] w1 in
        let x = next span r w2 in
        record x {
          world =
              emit (span_ended span)
                (unless_panicked x.panicked (log_response span r x.events start) x.world);
        }
