-- ===== src/Program/Http/Answers.antt =====
-- What a client of the program sees, and what is left in the database.
use qonto.Prelude.{ℕ, suc, String, Bool, Bytes, codes, ◌≡◌, ap, ◌∙◌, Option, none, some, List}
use qonto.Prelude.Int.{ℤ}
use qonto.Go.Time.{Time}
use qonto.Go.Context.{Context}
use qonto.Database.Engine.{Engine, Statement}
use qonto.Model.Transfer.{BulkTransferRequest}
use qonto.Platform.World.{Emission, World}
use qonto.Platform.Middleware.{HttpRequest, HttpHandler}
use qonto.Platform.Middleware.Log.{entered}
use qonto.Program.Retry.{service}
use qonto.Program.Observed.Submission.{observed_submit-Agrees}
use qonto.Program.Observed.Calls.{Sim-history}
use qonto.Program.Http.{result_of, observed_service, http_handler}
use qonto.Program.Http.Plain.{AsPlain, SameHandled, same-endpoint}
use qonto.Server.Response.{Body}
use qonto.Server.Routes.{Endpoint, submit_endpoint, history_endpoint, Route, routes, route_of}
use qonto.Server.Handler.{Service, Library, Handled}
use qonto.Server.Http.{write_response, endpoint_handled}
use qonto.Server.Http.Telemetry.{IsAccounted, handled_at, request_telemetry}

module _ (clock : ℕ → Time) (is_recording : ℕ → Bool) (sql_text : Statement → Bytes)
    (args : Statement → Option Bytes) (e : Engine) where
  abbrev observed_at : ℕ → Service (World e.State)
  observed_at = observed_service clock is_recording sql_text args e

  submits :
      (span : ℕ) (ctx : Context) (req : BulkTransferRequest) (w : World e.State)
      → AsPlain w
          ((observed_at span).submit_bulk_transfer ctx req w)
          ((service e).submit_bulk_transfer ctx req w.state)
  submits span ctx req w =
      let ((same, left), (xs, metered, d, log)) =
        observed_submit-Agrees clock is_recording sql_text args e span ctx req w in
      (ap result_of same, left, (_, log))

  lists :
      (span : ℕ) (ctx : Context) (id : ℤ) (cursor : Bytes) (limit : ℕ) (w : World e.State)
      → AsPlain w
          ((observed_at span).list_transaction_history ctx id cursor limit w)
          ((service e).list_transaction_history ctx id cursor limit w.state)
  lists span ctx id cursor limit w =
      let (same, left, ((xs, metered, log), sent)) =
        Sim-history clock is_recording sql_text args span e ctx id cursor limit w in
      (same, left, (xs, log))

  module _ (encode : Body → Bytes) (lib : Library) (format_time : Time → String)
      (pattern_of : HttpRequest → Option (String × Bytes)) (not_found : HttpHandler e.State)
      (trace_ids : ℕ → Option (Bytes × Bytes)) where
    -- The plain handler of an endpoint, on the plain program.
    abbrev pub plain_handled : Endpoint → Bytes → HttpRequest → e.State → Handled e.State
    plain_handled endpoint id r s =
        endpoint_handled lib format_time (λ _. service e) endpoint id 0 r s

    same_span :
        (endpoint : Endpoint) (id : Bytes) (span : ℕ) (r : HttpRequest) (w : World e.State)
        → SameHandled w
            (endpoint_handled lib format_time observed_at endpoint id span r w)
            (plain_handled endpoint id r w.state)
    unfolding endpoint_handled
    same_span submit_endpoint id span r w =
        same-endpoint lib format_time (observed_at span) (service e) (submits span) (lists span)
          submit_endpoint id span 0 r w
    same_span history_endpoint id span r w =
        same-endpoint lib format_time (observed_at span) (service e) (submits span) (lists span)
          history_endpoint id span 0 r w

    -- A request of a route is answered, and the database is left, as the route's handler does on the
    -- program without telemetry. The request is accounted for under its route and status, with the
    -- metrics and the error of that handler.
    pub http_answers :
        (pattern : String) (id : Bytes) (route : Route) (parent : ℕ) (r : HttpRequest)
        (w : World e.State)
        → pattern_of r ≡ some (pattern, id)
        → route_of pattern routes ≡ some route
        → let k = plain_handled route.endpoint id r w.state in
          let y =
            http_handler clock is_recording sql_text args e encode lib format_time pattern_of
              not_found trace_ids parent r w in
          (y.events ≡ write_response encode k.written)
          × (y.panicked ≡ none)
          × (y.world.state ≡ k.state)
          × (h : Handled (World e.State)) × (h.metrics ≡ k.metrics)
          × (h.failure ≡ k.failure)
          × (xs : List Emission) × IsAccounted encode lib format_time observed_at clock pattern_of
              not_found trace_ids route parent r w h xs y
    http_answers pattern id route parent r w p q =
        let h =
          handled_at encode lib format_time observed_at clock pattern_of not_found trace_ids route
            id parent r w in
        let (answer, counted, failed, left, (xs, log)) =
          same_span route.endpoint id (suc w.spans) r
            (entered clock trace_ids (codes route.label) parent r w) in
        let (events, calm, state, rec, written_status, emitted) =
          request_telemetry encode lib format_time observed_at clock pattern_of not_found trace_ids
            pattern id route parent r w xs p q log in
        (
          events ∙ ap (write_response encode) answer,
          calm,
          state ∙ left,
          h,
          counted,
          failed,
          xs,
          (events, calm, state, rec, written_status, emitted),
        )
