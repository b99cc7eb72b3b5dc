-- ===== src/Platform/Query.antt =====
-- The calls that pgx makes of the QueryTracer of pkg/database/querytracer.go, around a statement.
use qonto.Prelude.{
  ℕ, suc, String, Bool, Bytes, codes, Option, none, some, List, [], ◌∷◌, ◌++◌, if◌then◌else◌,
}
use qonto.Prelude.Int.{pos, ◌-ℤ◌}
use qonto.Go.Errors.{Error}
use qonto.Go.Time.{Time}
use qonto.Go.Context.{Context}
use qonto.Platform.Instruments.{
  Attribute, text, query_duration, queries_total, concurrency_conflicts,
}
use qonto.Platform.World.{Emission, added, timed, span_started, span_failed, span_ended, World, now}
use qonto.Platform.Tracer.{sql_operation, phased_span_name, is_concurrency_conflict}

pub record QueryTiming : Type 0 where
  pub start : Time
  pub operation : Bytes

-- What the context of the start carries to the end: the timing, and its span.
pub record Traced : Type 0 where
  pub timing : Option QueryTiming
  pub span : ℕ

abbrev pub status_text : Option Error → Bytes
status_text none = codes "ok"
status_text (some _) = codes "error"

-- What is emitted of an error: on the span, and for a conflict on its counter.
unfoldable pub failure : ℕ → Option Error → List Emission
unfolding is_concurrency_conflict
failure span none = []
failure span (some x) =
    span_failed span x
    ∷ (if is_concurrency_conflict x then added concurrency_conflicts (pos 1) [] ∷ [] else [])

abbrev pub args_attr : Option Bytes → List Attribute
args_attr none = []
args_attr (some json) = text "db.args" json ∷ []

-- `is_recording` says of a span whether its trace is sampled.
module _ (clock : ℕ → Time) (is_recording : ℕ → Bool) {S : Type 0} where
  -- The new span, if its parent is recording; else the parent stays the context's.
  abbrev start_recording : QueryTiming → ℕ → Bytes → List Attribute → World S → Traced × World S
  start_recording timing parent name attrs w =
      let span = suc w.spans in
      let on = is_recording parent in
      (
        record { timing = some timing; span = if on then span else parent },
        record w {
          spans = if on then span else w.spans;
          emitted =
              if on then w.emitted ++ (span_started span parent name attrs ∷ []) else w.emitted;
        },
      )

  -- `args` is the attribute of the arguments.
  unfoldable pub trace_query_start : Context → ℕ → Bytes → Option Bytes → World S → Traced × World S
  unfolding sql_operation phased_span_name
  trace_query_start ctx span sql args w =
      let (start, w1) = now clock w in
      start_recording (record { start = start; operation = sql_operation sql }) span
        (codes (phased_span_name ctx "postgres.query"))
        (text "db.system" (codes "postgresql") ∷ text "db.statement" sql ∷ args_attr args) w1

  -- `table` is the name of the table, with its parts joined by dots.
  unfoldable pub trace_copy_from_start : Context → ℕ → String → World S → Traced × World S
  unfolding phased_span_name
  trace_copy_from_start ctx span table w =
      let (start, w1) = now clock w in
      start_recording (record { start = start; operation = codes "COPY" }) span
        (codes (phased_span_name ctx "postgres.copy_from"))
        (text "db.system" (codes "postgresql") ∷ text "db.sql.table" (codes table) ∷ []) w1

  unfoldable pub record_query_metric : Option QueryTiming → Option Error → World S → World S
  record_query_metric none e w = w
  record_query_metric (some timing) e w =
      let attrs = text "operation" timing.operation ∷ text "status" (status_text e) ∷ [] in
      let (end, w1) = now clock w in
      record w1 {
        emitted =
            w1.emitted
            ++ (timed query_duration (end -ℤ timing.start) attrs
                ∷ added queries_total (pos 1) attrs
                ∷ []);
      }

  unfoldable pub end_span : ℕ → Option Error → World S → World S
  unfolding failure
  end_span span e w = record w { emitted = w.emitted ++ (failure span e ++ (span_ended span ∷ [])) }

  unfoldable pub trace_query_end : Traced → Option Error → World S → World S
  unfolding record_query_metric end_span
  trace_query_end t e w = end_span t.span e (record_query_metric t.timing e w)

  unfoldable pub trace_copy_from_end : Traced → Option Error → World S → World S
  unfolding record_query_metric end_span
  trace_copy_from_end t e w = end_span t.span e (record_query_metric t.timing e w)
