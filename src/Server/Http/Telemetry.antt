-- ===== src/Server/Http/Telemetry.antt =====
-- One request through the middlewares, the mux and its handler.
use mathlib.Core.Path.{subst}
use qonto.Prelude.{
  ℕ, suc, String, Bytes, codes, ◌≡◌, refl, sym, ap, ◌∙◌, Option, none, some, List, [], ◌∷◌, ◌++◌,
  map, append_assoc, arith,
}
use qonto.Prelude.Int.{pos}
use qonto.Go.Time.{Time}
use qonto.Platform.Instruments.{http_metrics}
use qonto.Platform.Recorder.{
  StatusRecorder, record_event, write, write_header, header, new_recorder, served,
}
use qonto.Platform.World.{Emission, added, span_started, World, start_span, now}
use qonto.Platform.Middleware.{
  HttpRequest, Served, HttpHandler, red_labels, metrics_middleware, logging_middleware,
}
use qonto.Platform.Middleware.Log.{entered, trailing, middlewares_log}
use qonto.Server.Response.{Body, empty, error_response, amount_error, stored, history, Written}
use qonto.Server.Routes.{Route, routes, route_of}
use qonto.Server.Handler.{Service, Library, Handled}
use qonto.Server.Http.{
  measurement, recorded_error, body_events, write_response, serve_handled, endpoint_handled,
  endpoint_handler, route_handler, serve_mux, serve_http,
}

write-status : (b : Bytes) (rec : StatusRecorder) → (write b rec).status ≡ rec.status
unfolding write
write-status b rec = ground arith

-- The status that is recorded is the status that is written.
recorded_status :
    (encode : Body → Bytes) (w : Written)
    → (served (write_response encode w) new_recorder).status ≡ w.status
unfolding served record_event write_header write_response
recorded_status encode w = on w.body
  where
    on :
        (b : Body)
        → (served (header w.status ∷ body_events encode b) new_recorder).status ≡ w.status
    on empty = refl
    on (stored text) = write-status (codes text) (record { status = w.status; body = [] })
    on (error_response m ds) =
        write-status (encode (error_response m ds)) (record { status = w.status; body = [] })
    on (amount_error e) =
        write-status (encode (amount_error e)) (record { status = w.status; body = [] })
    on (history h) = write-status (encode (history h)) (record { status = w.status; body = [] })

-- LoggingMiddleware calls the handler behind it once, under its span.
logging_middleware-at :
    (clock : ℕ → Time) (trace_ids : ℕ → Option (Bytes × Bytes)) {S : Type 0}
    (next next' : HttpHandler S) (parent : ℕ) (r : HttpRequest) (w : World S)
    → (let (span, w') = start_span parent (r.method ++ (codes " " ++ r.path)) [] (now clock w).1 in
        next span r w' ≡ next' span r w')
    → logging_middleware clock trace_ids next parent r w
      ≡ logging_middleware clock trace_ids next' parent r w
unfolding logging_middleware
logging_middleware-at clock trace_ids next next' parent r w h = rw h refl

module _ (encode : Body → Bytes) (lib : Library) (format_time : Time → String) {S : Type 0}
    (svc : ℕ → Service (World S)) (clock : ℕ → Time)
    (pattern_of : HttpRequest → Option (String × Bytes)) (not_found : HttpHandler S)
    (trace_ids : ℕ → Option (Bytes × Bytes)) where
  abbrev pub handled_at : Route → Bytes → ℕ → HttpRequest → World S → Handled (World S)
  handled_at route id parent r w =
      endpoint_handled lib format_time svc route.endpoint id (suc w.spans) r
        (entered clock trace_ids (codes route.label) parent r w)

  served_by :
      (pattern : String) (id : Bytes) (route : Route) (parent : ℕ) (r : HttpRequest) (w : World S)
      → pattern_of r ≡ some (pattern, id)
      → route_of pattern routes ≡ some route
      → serve_http encode lib format_time svc clock pattern_of not_found trace_ids parent r w
        ≡ logging_middleware clock trace_ids
            (metrics_middleware clock
              (codes route.label)
              (endpoint_handler encode lib format_time svc route.endpoint id))
            parent
            r
            w
  unfolding serve_http serve_mux
  served_by pattern id route parent r w p q =
      logging_middleware-at clock trace_ids
        (serve_mux encode lib format_time svc clock pattern_of not_found)
        (route_handler encode lib format_time svc clock pattern_of not_found (some route) id) parent
        r w (chosen (suc w.spans) _)
    where
      chosen :
          (span : ℕ) (v : World S)
          → serve_mux encode lib format_time svc clock pattern_of not_found span r v
            ≡ route_handler encode lib format_time svc clock pattern_of not_found
                (some route)
                id
                span
                r
                v
      chosen span v =
          ap
            (λ (o : Option (String × Bytes)). elim o [
              | none ↦ not_found span r v
              | some (name, value) ↦
                  route_handler encode lib format_time svc clock pattern_of not_found
                    (route_of name routes) value span r v
            ])
            p
          ∙ ap
              (λ (o : Option Route).
                route_handler encode lib format_time svc clock pattern_of not_found o id span r v)
              q

  -- The response is that of the handler. Behind what the handler's service emitted, `xs`, come the
  -- metrics of the handler, the error that it records, and one count, one duration and one line
  -- with the status that is written.
  abbrev pub IsAccounted :
      Route → ℕ → HttpRequest → World S → Handled (World S) → List Emission → Served S → Type 0
  IsAccounted route parent r w h xs y =
      let span = suc w.spans in
      (y.events ≡ write_response encode h.written)
      × (y.panicked ≡ none)
      × (y.world.state ≡ h.state.state)
      × (rec : StatusRecorder) × (rec.status ≡ h.written.status)
      × (y.world.emitted
          ≡ w.emitted
            ++ (span_started span parent (r.method ++ (codes " " ++ r.path)) []
                ∷ added http_metrics.in_flight (pos 1) (red_labels (codes route.label) r)
                ∷ ((xs ++ (map measurement h.metrics ++ recorded_error span h.failure))
                    ++ trailing clock trace_ids (codes route.label) r w none rec h.state)))

  -- A request of a route, whose service adds `xs` to the telemetry, is answered by the route's
  -- handler, and accounted for under the route and the status that is written.
  pub request_telemetry :
      (pattern : String) (id : Bytes) (route : Route) (parent : ℕ) (r : HttpRequest) (w : World S)
      (xs : List Emission)
      → pattern_of r ≡ some (pattern, id)
      → route_of pattern routes ≡ some route
      → let h = handled_at route id parent r w in
        h.state.emitted ≡ (entered clock trace_ids (codes route.label) parent r w).emitted ++ xs
        → IsAccounted route parent r w h xs
            (serve_http encode lib format_time svc clock pattern_of not_found trace_ids parent r w)
  unfolding serve_handled
  request_telemetry pattern id route parent r w xs p q e =
      let h = handled_at route id parent r w in
      let own = map measurement h.metrics ++ recorded_error (suc w.spans) h.failure in
      let before = (entered clock trace_ids (codes route.label) parent r w).emitted in
      let (same, calm, left, log) =
        middlewares_log clock trace_ids (codes route.label)
          (endpoint_handler encode lib format_time svc route.endpoint id) parent r w (xs ++ own)
          (ap (λ l. l ++ own) e ∙ append_assoc before xs own) in
      subst (IsAccounted route parent r w h xs) (sym (served_by pattern id route parent r w p q)) (
        same,
        calm,
        left,
        served (write_response encode h.written) new_recorder,
        recorded_status encode h.written,
        log,
      )
