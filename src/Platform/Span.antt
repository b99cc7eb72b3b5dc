-- ===== src/Platform/Span.antt =====
-- pkg/observability/span.go: what is recorded on the current span.
use qonto.Prelude.{String, List, [], ◌∷◌, ◌++◌}
use qonto.Go.Errors.{Error}

pub data SpanStatus : Type 0 where
  unset : SpanStatus
  ok_status : SpanStatus
  error_status : String → SpanStatus

-- A span of OpenTelemetry, with its attributes as keys and texts.
pub record Span : Type 0 where
  pub attributes : List (String × String)
  pub status : SpanStatus
  pub errors : List Error

-- `SetStatus` on the status that is set is the SDK's.
module _ (set_status : SpanStatus → SpanStatus → SpanStatus) where
  unfoldable pub span_outcome : String → List (String × String) → Span → Span
  span_outcome outcome attrs span = record span {
    attributes = span.attributes ++ (("outcome", outcome) ∷ attrs);
    status = set_status span.status ok_status;
  }

  -- `err.Error()` is a parameter.
  unfoldable pub span_error : (Error → String) → Error → Span → Span
  span_error error_text e span = record span {
    errors = span.errors ++ (e ∷ []);
    status = set_status span.status (error_status (error_text e));
  }
