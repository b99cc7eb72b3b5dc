-- ===== src/Database/Traced/Metered.antt =====
-- What the tracer emits around statements, counted.
use text.Mathlib.Text.{◌==◌ as str_eq}
use qonto.Prelude.{
  ℕ, suc, ◌+◌, ◌≤◌, String, Bool, true, false, Bytes, ◌≡◌, ap, ◌∙◌, Option, none, some, List, [],
  ◌∷◌, ◌++◌, append_assoc, append-nil_right, if◌then◌else◌, Bool-cases, inl, inr, arith,
}
use qonto.Prelude.Int.{ℤ, pos}
use qonto.Go.Errors.{Error}
use qonto.Go.Time.{Time}
use qonto.Go.Context.{Context}
use qonto.Platform.Instruments.{
  Instrument, Attribute, query_duration, queries_total, concurrency_conflicts,
}
use qonto.Platform.World.{Emission, added, timed, span_started, span_failed, span_ended, World}
use qonto.Platform.Tracer.{is_concurrency_conflict}
use qonto.Platform.Query.{
  failure, trace_query_start, trace_copy_from_start, record_query_metric, end_span, trace_query_end,
  trace_copy_from_end,
}
use qonto.Database.Engine.{Engine, Statement, select, update, insert, copy_from, raw, Target}
use qonto.Database.Traced.{traced_run, traced_control}

abbrev pub count : (Emission → Bool) → List Emission → ℕ
count p [] = 0
count p (x ∷ xs) = if p x then suc (count p xs) else count p xs

pub count-append :
    (p : Emission → Bool) (xs ys : List Emission) → count p (xs ++ ys) ≡ count p xs + count p ys
count-append p [] ys = omega arith
count-append p (x ∷ xs) ys = ground (arith, count-append p xs ys)

-- An addition to a counter, or a measured duration, of the instrument `i`.
abbrev pub is_added : Instrument → Emission → Bool
is_added i (added j _ _) = str_eq j.name i.name
is_added i _ = false

abbrev pub is_timed : Instrument → Emission → Bool
is_timed i (timed j _ _) = str_eq j.name i.name
is_timed i _ = false

abbrev pub is_started : Emission → Bool
is_started (span_started _ _ _ _) = true
is_started _ = false

abbrev pub is_ended : Emission → Bool
is_ended (span_ended _) = true
is_ended _ = false

abbrev pub is_failed : Emission → Bool
is_failed (span_failed _ _) = true
is_failed _ = false

-- As many durations as statements, each statement ends a span and starts at most one, and there are
-- no more conflicts than errors.
pub record IsMetered (xs : List Emission) : Type 0 where
  pub timed_each : count (is_timed query_duration) xs ≡ count (is_added queries_total) xs
  pub ended_each : count is_ended xs ≡ count (is_added queries_total) xs
  pub started_once : count is_started xs ≤ count is_ended xs
  pub conflicts_fail : count (is_added concurrency_conflicts) xs ≤ count is_failed xs

pub IsMetered-nil : IsMetered []
IsMetered-nil = omega arith

pub IsMetered-append : (xs ys : List Emission) → IsMetered xs → IsMetered ys → IsMetered (xs ++ ys)
IsMetered-append xs ys h k = record {
  timed_each = omega (
    arith,
    count-append (is_timed query_duration) xs ys,
    count-append (is_added queries_total) xs ys,
    h.timed_each,
    k.timed_each,
  );
  ended_each = omega (
    arith,
    count-append is_ended xs ys,
    count-append (is_added queries_total) xs ys,
    h.ended_each,
    k.ended_each,
  );
  started_once = omega (
    arith,
    count-append is_started xs ys,
    count-append is_ended xs ys,
    h.started_once,
    k.started_once,
  );
  conflicts_fail = omega (
    arith,
    count-append (is_added concurrency_conflicts) xs ys,
    count-append is_failed xs ys,
    h.conflicts_fail,
    k.conflicts_fail,
  );
}

-- What stands behind `before` is metered.
abbrev pub Grows : List Emission → List Emission → Type 0
Grows before after = (xs : List Emission) × IsMetered xs × (after ≡ before ++ xs)

pub Grows-refl : (a : List Emission) → Grows a a
Grows-refl a = ([], IsMetered-nil, append-nil_right a)

pub Grows-trans : (a b c : List Emission) → Grows a b → Grows b c → Grows a c
Grows-trans a b c (xs, h, p) (ys, k, q) =
    (xs ++ ys, IsMetered-append xs ys h k, q ∙ ap (λ l. l ++ ys) p ∙ append_assoc a xs ys)

abbrev pub measures : ℤ → List Attribute → List Emission
measures d attrs = timed query_duration d attrs ∷ added queries_total (pos 1) attrs ∷ []

-- What one statement emits.
statement-IsMetered :
    (n parent : ℕ) (name : Bytes) (attrs labels : List Attribute) (d : ℤ) (span : ℕ)
    (x : Option Error)
    → IsMetered (measures d labels ++ (failure span x ++ (span_ended span ∷ [])))
      × IsMetered (
          span_started n parent name attrs
          ∷ (measures d labels ++ (failure span x ++ (span_ended span ∷ []))))
unfolding failure
statement-IsMetered n parent name attrs labels d span none = (omega arith, omega arith)
statement-IsMetered n parent name attrs labels d span (some e) =
    elim (Bool-cases (is_concurrency_conflict e)) [
      | inl conflict ↦ rw conflict (omega arith, omega arith)
      | inr other ↦ rw other (omega arith, omega arith)
    ]

statement-Grows :
    (before : List Emission) (on : Bool) (n parent : ℕ) (name : Bytes)
    (attrs labels : List Attribute) (d : ℤ) (span : ℕ) (x : Option Error)
    → Grows before (
        ((if on then before ++ (span_started n parent name attrs ∷ []) else before)
          ++ measures d labels)
        ++ (failure span x ++ (span_ended span ∷ [])))
statement-Grows before true n parent name attrs labels d span x = (
  span_started n parent name attrs
      ∷ (measures d labels ++ (failure span x ++ (span_ended span ∷ []))),
  (statement-IsMetered n parent name attrs labels d span x).1,
  simp append_assoc,
)
statement-Grows before false n parent name attrs labels d span x = (
  measures d labels ++ (failure span x ++ (span_ended span ∷ [])),
  (statement-IsMetered n parent name attrs labels d span x).0,
  append_assoc before _ _,
)

module _ (clock : ℕ → Time) (is_recording : ℕ → Bool) (sql_text : Statement → Bytes)
    (args : Statement → Option Bytes) (ctx : Context) (span : ℕ) (e : Engine) where
  pub traced_run-Grows :
      (target : Target) (q : Statement) (w : World e.State)
      → Grows w.emitted
          (traced_run clock is_recording sql_text args ctx span e target q w).1.emitted
  unfolding traced_run trace_query_start trace_copy_from_start trace_query_end trace_copy_from_end
      record_query_metric end_span
  traced_run-Grows target (select a) w = statement-Grows w.emitted _ _ _ _ _ _ _ _ _
  traced_run-Grows target (update a) w = statement-Grows w.emitted _ _ _ _ _ _ _ _ _
  traced_run-Grows target (insert a) w = statement-Grows w.emitted _ _ _ _ _ _ _ _ _
  traced_run-Grows target (copy_from t c v) w = statement-Grows w.emitted _ _ _ _ _ _ _ _ _
  traced_run-Grows target (raw s v) w = statement-Grows w.emitted _ _ _ _ _ _ _ _ _

  pub traced_control-Grows :
      (sql : String) (f : e.State → Option Error × e.State) (w : World e.State)
      → Grows w.emitted
          (traced_control clock is_recording sql_text args ctx span e sql f w).1.emitted
  unfolding traced_control trace_query_start trace_query_end record_query_metric end_span
  traced_control-Grows sql f w = statement-Grows w.emitted _ _ _ _ _ _ _ _ _
