-- ===== src/Platform/World.antt =====
-- What instrumented code reads and writes: the state behind it, the clock, and what it has emitted.
use qonto.Prelude.{ℕ, suc, Bytes, List, [], ◌∷◌, ◌++◌}
use qonto.Prelude.Int.{ℤ}
use qonto.Go.Errors.{Error}
use qonto.Go.Time.{Time}
use qonto.Platform.Instruments.{Instrument, Attribute}
use qonto.Platform.Recorder.{LogLine}

-- One call of OpenTelemetry or slog. Spans are numbered in the order in which they are started;
-- 0 is the span of a context that has none. A duration is in nanoseconds.
pub data Emission : Type 0 where
  added : Instrument → ℤ → List Attribute → Emission
  recorded : Instrument → ℤ → List Attribute → Emission
  timed : Instrument → ℤ → List Attribute → Emission
  span_started : ℕ → ℕ → Bytes → List Attribute → Emission  -- the span, its parent and its name
  span_failed : ℕ → Error → Emission  -- `RecordError`, and the status `Error`
  span_ok : ℕ → List Attribute → Emission  -- the status `Ok`, and attributes
  span_ended : ℕ → Emission
  logged : LogLine → Emission

-- `readings` counts the calls of `time.Now`, `spans` the spans that were started.
pub record World (S : Type 0) : Type 0 where
  pub state : S
  pub readings : ℕ
  pub spans : ℕ
  pub emitted : List Emission

module _ {S : Type 0} where
  abbrev pub emit : Emission → World S → World S
  emit x w = record w { emitted = w.emitted ++ (x ∷ []) }

  -- `observability.StartSpan`, under the span `parent`
  abbrev pub start_span : ℕ → Bytes → List Attribute → World S → ℕ × World S
  start_span parent name attrs w =
      let span = suc w.spans in
      (
        span,
        record w {
          spans = span;
          emitted = w.emitted ++ (span_started span parent name attrs ∷ []);
        },
      )

  -- `time.Now()`: `clock n` is what the reading `n` gives.
  abbrev pub now : (ℕ → Time) → World S → Time × World S
  now clock w = (clock w.readings, record w { readings = suc w.readings })
