-- ===== src/Txn/Observed.antt =====
-- `Atomic` of pkg/txn/txn.go with its span, its histogram and the errors that it records.
pub mod Log
pub mod Status
pub mod Erasure
use Prim.Native.String.{◌++◌ as ◌<>◌}
use qonto.Prelude.{ℕ, codes, Option, none, some, [], ◌∷◌, ◌++◌}
use qonto.Prelude.Int.{◌-ℤ◌}
use qonto.Go.Errors.{Error, other, ok, err, wrap}
use qonto.Go.Time.{Time}
use qonto.Go.Context.{Context, with_tx}
use qonto.Platform.Instruments.{transaction_duration}
use qonto.Platform.World.{
  Emission, timed, span_failed, span_ok, span_ended, World, emit, start_span, now,
}
use qonto.Txn.{Exit, returned, panicked}

-- What the deferred function records of an exit: the error, or the status `Ok`.
unfoldable pub verdict : {A : Type 0} → ℕ → Exit A → Emission
verdict span (panicked p) = span_failed span (other ("panic in atomic block: " <> p))
verdict span (returned (err x)) = span_failed span x
verdict span (returned (ok _)) = span_ok span []

module _ (clock : ℕ → Time) {S : Type 0} where
  -- The function that is deferred first: the duration, and the end of the span.
  unfoldable pub measure : ℕ → Time → World S → World S
  measure span start w =
      let (end, w1) = now clock w in
      record w1 {
        emitted =
            w1.emitted ++ (timed transaction_duration (end -ℤ start) [] ∷ span_ended span ∷ []);
      }

-- `begin`, `commit` and `rollback` act on the instrumented state, since they may be traced.
module _ {S A : Type 0} (commit rollback : World S → Option Error × World S) where
  -- The function that is deferred last, and runs first.
  unfoldable pub settle : ℕ → Exit A → World S → Exit A × World S
  unfolding verdict
  settle span (panicked p) w = (panicked p, emit (verdict {A = A} span (panicked p)) (rollback w).1)
  settle span (returned (err x)) w =
      (returned (err x), emit (verdict {A = A} span (returned (err x))) (rollback w).1)
  settle span (returned (ok a)) w =
      let (failure, w') = commit w in
      let r : Exit A = elim failure [
        | none ↦ returned (ok a)
        | some x ↦ returned (err (wrap "commit transaction" x))
      ] in
      (r, emit (verdict span r) w')

module _ (clock : ℕ → Time) {S A : Type 0}
    (begin commit rollback : World S → Option Error × World S) where
  unfoldable pub atomic_observed :
      ℕ → Context → (ℕ → Context → World S → Exit A × World S) → World S → Exit A × World S
  unfolding settle measure verdict
  atomic_observed parent ctx fn w =
      let (span, w1) = start_span parent (codes "txn.Atomic") [] w in
      let (start, w2) = now clock w1 in
      let (failure, w3) = begin w2 in
      elim failure [
        | some x ↦
            let r : Exit A = returned (err (wrap "begin transaction" x)) in
            (r, measure clock span start (emit (verdict span r) w3))
        | none ↦
            let (r, w4) = fn span (with_tx ctx) w3 in
            let (r', w5) = settle commit rollback span r w4 in (r', measure clock span start w5)
      ]
