-- ===== src/Server/Http.antt =====
-- The handler that cmd/server gives to the HTTP server: LoggingMiddleware around the mux of
-- internal/transfer/server/handler.go, whose handlers stand in MetricsMiddleware.
pub mod Telemetry
use qonto.Prelude.{ℕ, String, Bytes, codes, Option, none, some, List, [], ◌∷◌, ◌++◌, map}
use qonto.Prelude.Int.{pos}
use qonto.Go.Errors.{Error}
use qonto.Go.Time.{Time}
use qonto.Platform.Instruments.{text, biz_metrics}
use qonto.Platform.Recorder.{Event, header, chunk}
use qonto.Platform.World.{Emission, added, recorded, span_failed, World}
use qonto.Platform.Middleware.{
  HttpRequest, Served, HttpHandler, metrics_middleware, logging_middleware,
}
use qonto.Server.Metrics.{Metric, bulk_transfers_total, transfer_amount_cents_total, batch_size}
use qonto.Server.Response.{Body, empty, stored, Written}
use qonto.Server.Routes.{Endpoint, submit_endpoint, history_endpoint, Route, routes, route_of}
use qonto.Server.Handler.{Service, Library, Handled, handle_submit_bulk_transfer}
use qonto.Server.HistoryHandler.{handle_list_transaction_history}

-- The call of OpenTelemetry that a metric is.
unfoldable pub measurement : Metric → Emission
measurement (bulk_transfers_total status) =
    added biz_metrics.bulk_transfers_total (pos 1) (text "status" (codes status) ∷ [])
measurement (transfer_amount_cents_total cents) =
    added biz_metrics.transfer_amount_cents_total cents []
measurement (batch_size n) = recorded biz_metrics.batch_size (pos n) []

abbrev pub recorded_error : ℕ → Option Error → List Emission
recorded_error span none = []
recorded_error span (some e) = span_failed span e ∷ []

-- `encode` is encoding/json, with a newline behind the text.
module _ (encode : Body → Bytes) where
  abbrev pub body_events : Body → List Event
  body_events empty = []
  body_events (stored body) = chunk (codes body) ∷ []
  body_events body = chunk (encode body) ∷ []

  -- `writeJSON`, or what the submission does with the result of the service
  unfoldable pub write_response : Written → List Event
  write_response w = header w.status ∷ body_events w.body

  unfoldable pub serve_handled : {S : Type 0} → ℕ → Handled (World S) → Served S
  unfolding write_response measurement
  serve_handled span h = record {
    events = write_response h.written;
    panicked = none;
    world = record h.state {
      emitted = h.state.emitted ++ (map measurement h.metrics ++ recorded_error span h.failure);
    };
  }

-- The service acts under the span of the request. `pattern_of` is the pattern of the mux that a
-- request matches, with the path value "id", and `not_found` what net/http does where there is none.
module _ (lib : Library) (format_time : Time → String) {T : Type 0} (svc : ℕ → Service T) where
  unfoldable pub endpoint_handled : Endpoint → Bytes → ℕ → HttpRequest → T → Handled T
  unfolding handle_submit_bulk_transfer handle_list_transaction_history
  endpoint_handled submit_endpoint id span r w =
      handle_submit_bulk_transfer lib (svc span)
        (record { ctx = r.ctx; body = r.body; idempotency_key = r.idempotency_key }) w
  endpoint_handled history_endpoint id span r w =
      handle_list_transaction_history format_time (svc span)
        (record { ctx = r.ctx; id = id; limit = r.limit; cursor = r.cursor }) w

module _ (encode : Body → Bytes) (lib : Library) (format_time : Time → String) {S : Type 0}
    (svc : ℕ → Service (World S)) where
  abbrev pub endpoint_handler : Endpoint → Bytes → HttpHandler S
  endpoint_handler endpoint id span r w =
      serve_handled encode span (endpoint_handled lib format_time svc endpoint id span r w)

  module _ (clock : ℕ → Time) (pattern_of : HttpRequest → Option (String × Bytes))
      (not_found : HttpHandler S) where
    abbrev pub route_handler : Option Route → Bytes → HttpHandler S
    route_handler none id = not_found
    route_handler (some route) id =
        metrics_middleware clock (codes route.label) (endpoint_handler route.endpoint id)

    unfoldable pub serve_mux : HttpHandler S
    unfolding metrics_middleware serve_handled endpoint_handled routes
    serve_mux span r w = elim (pattern_of r) [
      | none ↦ not_found span r w
      | some (pattern, id) ↦ route_handler (route_of pattern routes) id span r w
    ]

    unfoldable pub serve_http : (ℕ → Option (Bytes × Bytes)) → HttpHandler S
    unfolding serve_mux logging_middleware
    serve_http trace_ids = logging_middleware clock trace_ids serve_mux
