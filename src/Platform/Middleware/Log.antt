-- ===== src/Platform/Middleware/Log.antt =====
-- What the two middlewares emit around a handler.
use qonto.Prelude.{
  ℕ, suc, Bytes, codes, String, ◌≡◌, refl, ap, ◌∙◌, Option, none, some, List, [], ◌∷◌, ◌++◌,
  append_assoc,
}
use qonto.Prelude.Int.{pos, ◌-ℤ◌, neg}
use qonto.Go.Time.{Time}
use qonto.Platform.Instruments.{int, http_metrics}
use qonto.Platform.Recorder.{Event, StatusRecorder, new_recorder, served, log_line}
use qonto.Platform.World.{
  Emission, added, timed, span_started, span_ended, logged, World, emit, start_span, now,
}
use qonto.Platform.Middleware.{
  HttpRequest, HttpHandler, milliseconds, red_labels, count_response, unless_panicked,
  metrics_middleware, log_response, logging_middleware,
}

module _ (clock : ℕ → Time) (trace_ids : ℕ → Option (Bytes × Bytes)) {S : Type 0} where
  -- Where the handler starts.
  abbrev pub entered : Bytes → ℕ → HttpRequest → World S → World S
  entered route parent r w =
      let (span, w1) = start_span parent (r.method ++ (codes " " ++ r.path)) [] (now clock w).1 in
      (now clock (emit (added http_metrics.in_flight (pos 1) (red_labels route r)) w1)).1

  -- What is emitted behind the handler, of a request that was entered at `w` and left at `w'`: the
  -- count, the duration and the line only if it did not panic.
  abbrev pub trailing :
      Bytes → HttpRequest → World S → Option String → StatusRecorder → World S → List Emission
  trailing route r w (some _) rec w' =
      added http_metrics.in_flight (neg (pos 1)) (red_labels route r)
      ∷ span_ended (suc w.spans)
      ∷ []
  trailing route r w none rec w' =
      let labels = red_labels route r in
      added http_metrics.requests_total (pos 1) (labels ++ (int "status_code" rec.status ∷ []))
      ∷ timed http_metrics.duration (clock w'.readings -ℤ clock (suc w.readings)) labels
      ∷ added http_metrics.in_flight (neg (pos 1)) labels
      ∷ logged (
          log_line r.method r.path rec (milliseconds (clock (suc w'.readings) -ℤ clock w.readings))
            (trace_ids (suc w.spans)))
      ∷ span_ended (suc w.spans)
      ∷ []

  left :
      (route : Bytes) (r : HttpRequest) (w w' : World S) (events : List Event)
      (panic : Option String)
      → (emit (span_ended (suc w.spans)) (
          unless_panicked clock panic
            (log_response clock trace_ids (suc w.spans) r events (clock w.readings))
            (emit (added http_metrics.in_flight (neg (pos 1)) (red_labels route r)) (
              unless_panicked clock panic
                (count_response clock
                  (red_labels route r)
                  (served events new_recorder).status
                  (clock (suc w.readings)))
                w')))).emitted
        ≡ w'.emitted ++ trailing route r w panic (served events new_recorder) w'
  unfolding log_response count_response
  left route r w w' events (some p) = append_assoc w'.emitted _ _
  left route r w w' events none = simp append_assoc

  unchanged :
      (route : Bytes) (r : HttpRequest) (w w' : World S) (events : List Event)
      (panic : Option String)
      → (emit (span_ended (suc w.spans)) (
          unless_panicked clock panic
            (log_response clock trace_ids (suc w.spans) r events (clock w.readings))
            (emit (added http_metrics.in_flight (neg (pos 1)) (red_labels route r)) (
              unless_panicked clock panic
                (count_response clock
                  (red_labels route r)
                  (served events new_recorder).status
                  (clock (suc w.readings)))
                w')))).state
        ≡ w'.state
  unfolding log_response count_response
  unchanged route r w w' events (some p) = refl
  unchanged route r w w' events none = refl

  -- Around a handler that only adds to the telemetry, the two middlewares emit the start of a span
  -- and one more request in flight before it. Behind it they emit one request less in flight and
  -- the end of the span; before that, only where the handler did not panic, one request under the
  -- route and the recorded status, its duration and its line. The response, the panic and the state
  -- are the handler's.
  pub middlewares_log :
      (route : Bytes) (next : HttpHandler S) (parent : ℕ) (r : HttpRequest) (w : World S)
      (xs : List Emission)
      → let x = next (suc w.spans) r (entered route parent r w) in
        let y =
          logging_middleware clock trace_ids (metrics_middleware clock route next) parent r w in
        x.world.emitted ≡ (entered route parent r w).emitted ++ xs
        → (y.events ≡ x.events)
          × (y.panicked ≡ x.panicked)
          × (y.world.state ≡ x.world.state)
          × (y.world.emitted
              ≡ w.emitted
                ++ (span_started (suc w.spans) parent (r.method ++ (codes " " ++ r.path)) []
                    ∷ added http_metrics.in_flight (pos 1) (red_labels route r)
                    ∷ (xs ++ trailing route r w x.panicked (served x.events new_recorder) x.world)))
  unfolding logging_middleware metrics_middleware
  middlewares_log route next parent r w xs p =
      let x = next (suc w.spans) r (entered route parent r w) in
      let rest = trailing route r w x.panicked (served x.events new_recorder) x.world in
      (
        refl,
        refl,
        unchanged route r w x.world x.events x.panicked,
        left route r w x.world x.events x.panicked ∙ ap (λ l. l ++ rest) p ∙ simp append_assoc,
      )
