-- ===== src/Program/Observed/Counted.antt =====
-- `Atomic` with its telemetry counts no statement of its own.
use qonto.Prelude.{ℕ, suc, codes, refl, Option, none, some, [], ◌∷◌, ◌++◌, ◌≡◌}
use qonto.Prelude.Int.{◌-ℤ◌}
use qonto.Go.Errors.{Error, ok, err, wrap}
use qonto.Go.Time.{Time}
use qonto.Go.Context.{Context, with_tx}
use qonto.Database.Engine.{Engine}
use qonto.Database.Traced.Sent.{counted, IsBalanced, IsBalanced-trans, IsBalanced-emits}
use qonto.Platform.Instruments.{transaction_duration}
use qonto.Platform.World.{timed, span_started, span_ended, World, emit}
use qonto.Txn.{Exit, returned, panicked}
use qonto.Txn.Observed.{verdict, measure, settle, atomic_observed}

verdict-counted : {A : Type 0} (span : ℕ) (r : Exit A) → counted (verdict span r ∷ []) ≡ 0
unfolding verdict
verdict-counted span (panicked p) = refl
verdict-counted span (returned (err x)) = refl
verdict-counted span (returned (ok a)) = refl

module _ (e : Engine) (sent : e.State → ℕ) (clock : ℕ → Time) {A : Type 0}
    (begin commit rollback : World e.State → Option Error × World e.State)
    (begins : (w : World e.State) → IsBalanced e sent w (begin w).1)
    (commits : (w : World e.State) → IsBalanced e sent w (commit w).1)
    (rolls_back : (w : World e.State) → IsBalanced e sent w (rollback w).1)
    (fn : ℕ → Context → World e.State → Exit A × World e.State)
    (fn_does : (span : ℕ) (ctx : Context) (w : World e.State)
      → IsBalanced e sent w (fn span ctx w).1) where
  judged :
      (span : ℕ) (r : Exit A) (w w' : World e.State)
      → IsBalanced e sent w w'
      → IsBalanced e sent w (emit (verdict span r) w')
  judged span r w w' h =
      IsBalanced-emits e sent w w' (verdict span r ∷ []) h (verdict-counted span r)

  committed :
      (span : ℕ) (a : A) (w : World e.State) (x : Option Error × World e.State)
      → IsBalanced e sent w x.1
      → IsBalanced e sent w (
          let r : Exit A = elim x.0 [
            | none ↦ returned (ok a)
            | some y ↦ returned (err (wrap "commit transaction" y))
          ] in
          emit (verdict span r) x.1)
  committed span a w (none, w') h = judged span (returned (ok a)) w w' h
  committed span a w (some y, w') h =
      judged span (returned (err (wrap "commit transaction" y))) w w' h

  settle-IsBalanced :
      (span : ℕ) (r : Exit A) (w : World e.State)
      → IsBalanced e sent w (settle commit rollback span r w).1
  unfolding settle
  settle-IsBalanced span (panicked p) w = judged span (panicked p) w (rollback w).1 (rolls_back w)
  settle-IsBalanced span (returned (err x)) w =
      judged span (returned (err x)) w (rollback w).1 (rolls_back w)
  settle-IsBalanced span (returned (ok a)) w = committed span a w (commit w) (commits w)

  measured :
      (span : ℕ) (start : Time) (w w' : World e.State)
      → IsBalanced e sent w w'
      → IsBalanced e sent w (measure clock span start w')
  unfolding measure
  measured span start w w' h =
      IsBalanced-emits e sent w w'
        (timed transaction_duration (clock w'.readings -ℤ start) [] ∷ span_ended span ∷ []) h refl

  began :
      (ctx : Context) (span : ℕ) (start : Time) (w : World e.State)
      (x : Option Error × World e.State)
      → IsBalanced e sent w x.1
      → IsBalanced e sent w (
          let y : Exit A × World e.State = elim x.0 [
            | some z ↦
                let r : Exit A = returned (err (wrap "begin transaction" z)) in
                (r, measure clock span start (emit (verdict span r) x.1))
            | none ↦
                let (r, w4) = fn span (with_tx ctx) x.1 in
                let (r', w5) = settle commit rollback span r w4 in (r', measure clock span start w5)
          ] in
          y.1)
  began ctx span start w (some z, w3) h =
      let r : Exit A = returned (err (wrap "begin transaction" z)) in
      measured span start w (emit (verdict span r) w3) (judged span r w w3 h)
  began ctx span start w (none, w3) h =
      let (r, w4) = fn span (with_tx ctx) w3 in
      let w5 = (settle commit rollback span r w4).1 in
      measured span start w w5 (
        IsBalanced-trans e sent w w4 w5
          (IsBalanced-trans e sent w w3 w4 h (fn_does span (with_tx ctx) w3))
          (settle-IsBalanced span r w4))

  -- Where begin, commit, rollback and the function count what they send, so does `Atomic`.
  pub atomic_observed-IsBalanced :
      (parent : ℕ) (ctx : Context) (w : World e.State)
      → IsBalanced e sent w (atomic_observed clock begin commit rollback parent ctx fn w).1
  unfolding atomic_observed
  atomic_observed-IsBalanced parent ctx w =
      let span = suc w.spans in
      let w2 : World e.State = record {
        state = w.state;
        readings = suc w.readings;
        spans = span;
        emitted = w.emitted ++ (span_started span parent (codes "txn.Atomic") [] ∷ []);
      } in
      began ctx span (clock w.readings) w (begin w2) (
        IsBalanced-trans e sent w w2 (begin w2).1
          (IsBalanced-emits e sent w w (span_started span parent (codes "txn.Atomic") [] ∷ []) refl
            refl)
          (begins w2))
