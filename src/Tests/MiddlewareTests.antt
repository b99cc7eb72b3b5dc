-- ===== src/Tests/MiddlewareTests.antt =====
-- A request with all its telemetry, and a handler that panics.
use qonto.Prelude.{
  List, true, ℕ, suc, ◌≡◌, refl, Bytes, codes, String, Option, none, some, [], ◌∷◌, ◌++◌,
}
use qonto.Prelude.Int.{ℤ, pos, neg}
use qonto.Go.Errors.{ok}
use qonto.Go.Action.{pure}
use qonto.Platform.Recorder.{new_recorder, header, served}
use qonto.Platform.World.{Emission, span_started, span_ended, added, World}
use qonto.Platform.Instruments.{http_metrics}
use qonto.Platform.Middleware.{
  HttpRequest, HttpHandler, red_labels, metrics_middleware, logging_middleware,
}
use qonto.Platform.Middleware.Log.{entered, trailing, middlewares_log}
use qonto.Go.Int64.{times_100, add64}
use qonto.Go.Strings.{cut}
use qonto.Go.Strconv.{parse_int, parse_uint, scan}
use qonto.Model.Money.{parse_amount_cents}
use qonto.Server.Dto.{to_domain_request, to_transfers}
use qonto.Server.Handler.{Service}
use qonto.Server.Routes.{Route, submit_endpoint, routes}
use qonto.Server.Http.{serve_http, endpoint_handled}
use qonto.Server.Http.Telemetry.{IsAccounted, handled_at, request_telemetry}
use qonto.Service.Submit.{respond, status_created}
use qonto.Service.History.{page_of}
use qonto.Platform.Middleware.Gauge.{
  both_empty, from_left, from_right, gauge, SideBySide, no_request, in_handler, left_behind,
  in_flight_counts,
}
use qonto.Tests.RetryTests.{reads_sent}
use qonto.Tests.Sample.{no_context, items}
use qonto.Tests.ObservedTests.{ticking, idle}

abbrev pub no_ids : ℕ → Option (Bytes × Bytes)
no_ids _ = none

abbrev pub asked : HttpRequest
asked = record {
  ctx = no_context;
  method = codes "POST";
  path = codes "/transfers/bulk";
  body = some (codes "{}");
  idempotency_key = "k1";
  limit = [];
  cursor = [];
}

-- A handler that writes a header and panics.
abbrev crashing : HttpHandler ℕ
crashing span r w = record {
  events = header (pos 200) ∷ [];
  panicked = some "index out of range";
  world = w;
}

middlewares_log_example :
    let x = crashing 1 asked (entered ticking no_ids (codes "POST /transfers/bulk") 0 asked idle) in
    let y =
      logging_middleware ticking no_ids
        (metrics_middleware ticking (codes "POST /transfers/bulk") crashing)
        0
        asked
        idle in
    (y.events ≡ x.events)
    × (y.panicked ≡ x.panicked)
    × (y.world.state ≡ x.world.state)
    × (y.world.emitted
        ≡ span_started 1 0 (asked.method ++ (codes " " ++ asked.path)) []
          ∷ added http_metrics.in_flight (pos 1) (red_labels (codes "POST /transfers/bulk") asked)
          ∷ trailing ticking no_ids
              (codes "POST /transfers/bulk")
              asked
              idle
              x.panicked
              (served x.events new_recorder)
              x.world)
middlewares_log_example =
    middlewares_log ticking no_ids (codes "POST /transfers/bulk") crashing 0 asked idle [] refl

-- One request is in its handler while another one's panics.
abbrev opening : Emission
opening = span_started 1 0 (asked.method ++ (codes " " ++ asked.path)) []

abbrev change : ℤ → Emission
change n = added http_metrics.in_flight n (red_labels (codes "POST /transfers/bulk") asked)

abbrev crashed_log : List Emission
crashed_log = opening ∷ change (pos 1) ∷ change (neg (pos 1)) ∷ span_ended 1 ∷ []

abbrev two_logs : List Emission
two_logs =
    opening ∷ opening ∷ change (pos 1) ∷ change (pos 1) ∷ change (neg (pos 1)) ∷ span_ended 1 ∷ []

side_by_side : SideBySide (λ _. true) ticking no_ids ℕ 1 two_logs
unfolding logging_middleware metrics_middleware
side_by_side =
    in_handler (codes "POST /transfers/bulk") asked 0 idle [] crashed_log two_logs 0 refl refl
      (from_left (from_right (from_right (from_left (from_right (from_right both_empty))))))
      (left_behind (codes "POST /transfers/bulk") asked 0 idle [] [] crashed_log 0 crashing refl
        refl refl (from_left (from_left (from_left (from_left both_empty)))) no_request)

in_flight_counts_example : gauge (λ _. true) two_logs ≡ pos 1
in_flight_counts_example = in_flight_counts (λ _. true) ticking no_ids ℕ 1 two_logs side_by_side

abbrev counting : ℕ → Service (World ℕ)
counting span = record {
  submit_bulk_transfer = λ _ _ w. (ok (respond status_created), record w { state = suc w.state });
  list_transaction_history = λ _ _ _ limit. pure (page_of limit items);
}

abbrev pub posting : Route
posting = record {
  pattern = "POST /transfers/bulk";
  label = "POST /transfers/bulk";
  endpoint = submit_endpoint;
}

abbrev pub matched : HttpRequest → Option (String × Bytes)
matched _ = some ("POST /transfers/bulk", [])

request_telemetry_run :
    IsAccounted
      (λ _. [])
      reads_sent
      (λ _. "then")
      counting
      ticking
      matched
      crashing
      no_ids
      posting
      0
      asked
      idle
      (handled_at
        (λ _. [])
        reads_sent
        (λ _. "then")
        counting
        ticking
        matched
        crashing
        no_ids
        posting
        []
        0
        asked
        idle)
      []
      (serve_http
        (λ _. [])
        reads_sent
        (λ _. "then")
        counting
        ticking
        matched
        crashing
        no_ids
        0
        asked
        idle)
unfolding routes endpoint_handled to_domain_request to_transfers parse_amount_cents cut parse_int
    parse_uint scan add64 times_100
request_telemetry_run =
    request_telemetry (λ _. []) reads_sent (λ _. "then") counting ticking matched crashing no_ids
      "POST /transfers/bulk" [] posting 0 asked idle [] refl refl refl
