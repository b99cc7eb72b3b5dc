-- ===== src/Txn/Observed/Status.antt =====
-- The status of a span, by OpenTelemetry's rules.
use qonto.Prelude.{
  ℕ, suc, String, ◌≡◌, refl, ap, ◌∙◌, Option, none, some, List, [], ◌∷◌, ◌++◌, append_assoc, ◌==◌,
  if◌then◌else◌, codes, arith,
}
use qonto.Go.Errors.{Error, ok, err, wrap}
use qonto.Go.Time.{Time}
use qonto.Go.Context.{Context, with_tx}
use qonto.Platform.Instruments.{Attribute}
use qonto.Platform.Span.{SpanStatus, unset, ok_status, error_status}
use qonto.Platform.World.{Emission, span_failed, span_ok, World, emit, start_span, now}
use qonto.Txn.{Exit, returned}
use qonto.Txn.Observed.{verdict, measure, settle, atomic_observed}

-- Emissions are only ever added behind those that were there.
abbrev pub Extends : List Emission → List Emission → Type 0
Extends before after = (xs : List Emission) × (after ≡ before ++ xs)

Extends-trans : (a b c : List Emission) → Extends a b → Extends b c → Extends a c
Extends-trans a b c (xs, p) (ys, q) = (xs ++ ys, q ∙ ap (λ l. l ++ ys) p ∙ append_assoc a xs ys)

-- Where `Atomic` calls begin.
abbrev pub opened : {S : Type 0} → (ℕ → Time) → ℕ → World S → World S
opened clock parent w =
    let (span, w1) = start_span parent (codes "txn.Atomic") [] w in (now clock w1).1

-- `set_status old new` is the status behind `SetStatus`, and `error_text` is `err.Error()`.
module _ (set_status : SpanStatus → SpanStatus → SpanStatus) (error_text : Error → String) where
  abbrev pub after_emission : ℕ → SpanStatus → Emission → SpanStatus
  after_emission span old (span_failed n e) =
      if n == span then set_status old (error_status (error_text e)) else old
  after_emission span old (span_ok n attrs) = if n == span then set_status old ok_status else old
  after_emission span old _ = old

  -- The status of a span behind the emissions of a list.
  unfoldable pub status_after : ℕ → SpanStatus → List Emission → SpanStatus
  status_after span old [] = old
  status_after span old (x ∷ xs) = status_after span (after_emission span old x) xs

  status_after-append :
      (span : ℕ) (old : SpanStatus) (xs ys : List Emission)
      → status_after span old (xs ++ ys) ≡ status_after span (status_after span old xs) ys
  unfolding status_after
  status_after-append span old [] ys = refl
  status_after-append span old (x ∷ xs) ys =
      status_after-append span (after_emission span old x) xs ys

  -- "Ok" is final.
  module _ (ok_is_final : (s : SpanStatus) → set_status ok_status s ≡ ok_status)
      (ok_is_set : (s : SpanStatus) → set_status s ok_status ≡ ok_status) where
    stays : (span : ℕ) (x : Emission) → after_emission span ok_status x ≡ ok_status
    stays span (span_failed n e) = ground (arith, ok_is_final (error_status (error_text e)))
    stays span (span_ok n attrs) = ground (arith, ok_is_final ok_status)
    stays span x = refl

    status_after-ok : (span : ℕ) (xs : List Emission) → status_after span ok_status xs ≡ ok_status
    unfolding status_after
    status_after-ok span [] = refl
    status_after-ok span (x ∷ xs) =
        ap (λ s. status_after span s xs) (stays span x) ∙ status_after-ok span xs

    -- Once the status "Ok" was set on a span, it stays, whatever is emitted before and after.
    status_after-span_ok :
        (span : ℕ) (old : SpanStatus) (xs ys : List Emission) (attrs : List Attribute)
        → status_after span old (xs ++ (span_ok span attrs ∷ ys)) ≡ ok_status
    unfolding status_after
    status_after-span_ok span old xs ys attrs =
        status_after-append span old xs (span_ok span attrs ∷ ys)
        ∙ ap (λ s. status_after span s ys) (ground (arith, ok_is_set (status_after span old xs)))
        ∙ status_after-ok span ys

    settle_hides :
        {S A : Type 0} (commit rollback : World S → Option Error × World S) (span : ℕ) (a : A)
        (w : World S) (xs ys : List Emission) (attrs : List Attribute) (x : Error)
        → w.emitted ≡ xs ++ (span_ok span attrs ∷ ys)
        → (commit w).0 ≡ some x
        → Extends w.emitted (commit w).1.emitted
        → let (r, w') = settle commit rollback span (returned (ok a)) w in
          (r ≡ returned (err (wrap "commit transaction" x)))
          × Extends (xs ++ (span_ok span attrs ∷ ys)) w'.emitted
    unfolding settle verdict
    settle_hides commit rollback span a w xs ys attrs x said failed (zs, p) =
        let v = span_failed span (wrap "commit transaction" x) in
        rw failed (
          refl,
          (
            zs ++ (v ∷ []),
            ap (λ l. l ++ (v ∷ [])) (p ∙ ap (λ l. l ++ zs) said)
                ∙ append_assoc (xs ++ (span_ok span attrs ∷ ys)) zs (v ∷ []),
          ),
        )

    still_ok :
        (span : ℕ) (xs ys l : List Emission) (attrs : List Attribute)
        → Extends (xs ++ (span_ok span attrs ∷ ys)) l
        → status_after span unset l ≡ ok_status
    still_ok span xs ys l attrs (zs, p) =
        ap (status_after span unset) (p ∙ append_assoc xs (span_ok span attrs ∷ ys) zs)
        ∙ status_after-span_ok span unset xs (ys ++ zs) attrs

    module _ (clock : ℕ → Time) {S A : Type 0}
        (begin commit rollback : World S → Option Error × World S) where
      -- The state in which the function's own part ends.
      abbrev IsEnding : ℕ → World S → Exit A × World S → Exit A × World S → Type 0
      IsEnding span w x (r, w') =
          let (r', w5) = settle commit rollback span x.0 x.1 in
          (r ≡ r') × (w' ≡ measure clock span (clock w.readings) w5)

      began :
          (fn : ℕ → Context → World S → Exit A × World S) (parent : ℕ) (ctx : Context) (w : World S)
          {y : Exit A × World S}
          → (begin (opened clock parent w)).0 ≡ none
          → fn (suc w.spans) (with_tx ctx) (begin (opened clock parent w)).1 ≡ y
          → IsEnding (suc w.spans) w y (atomic_observed clock begin commit rollback parent ctx fn w)
      unfolding atomic_observed
      began fn parent ctx w {y} begun did = on (begin (opened clock parent w)) begun did
        where
          on :
              (x : Option Error × World S)
              → x.0 ≡ none
              → fn (suc w.spans) (with_tx ctx) x.1 ≡ y
              → IsEnding (suc w.spans) w y (elim x.0 [
                | some z ↦
                    let r : Exit A = returned (err (wrap "begin transaction" z)) in
                    (
                      r,
                      measure clock
                          (suc w.spans)
                          (clock w.readings)
                          (emit (verdict (suc w.spans) r) x.1),
                    )
                | none ↦
                    let (r, w4) = fn (suc w.spans) (with_tx ctx) x.1 in
                    let (r', w5) = settle commit rollback (suc w.spans) r w4 in
                    (r', measure clock (suc w.spans) (clock w.readings) w5)
              ])
          on (none, w3) b d = rw d (refl, refl)
          on (some z, w3) b d = cc

      hidden :
          (span : ℕ) (xs ys : List Emission) (attrs : List Attribute) (x : Error) (w : World S)
          (y z : Exit A × World S)
          → (let (r, w') = settle commit rollback span y.0 y.1 in
              (r ≡ returned (err (wrap "commit transaction" x)))
              × Extends (xs ++ (span_ok span attrs ∷ ys)) w'.emitted)
          → IsEnding span w y z
          → (z.0 ≡ returned (err (wrap "commit transaction" x)))
            × (status_after span unset z.1.emitted ≡ ok_status)
      unfolding measure
      hidden span xs ys attrs x w y z (same, grown) (p, q) = (
        p ∙ same,
        still_ok span xs ys _ attrs
            (Extends-trans _ _ _ grown (_, ap (λ (v : World S). v.emitted) q)),
      )

      -- Where the function returned nil and had set the status of its span to `Ok`, as
      -- `RecordOutcome` does, and the commit then fails, `Atomic` returns the error of the commit and
      -- the status of its span is `Ok`, if "Ok" is final.
      pub atomic_hides_failure :
          (parent : ℕ) (ctx : Context) (fn : ℕ → Context → World S → Exit A × World S)
          (w w4 : World S) (a : A) (xs ys : List Emission) (attrs : List Attribute) (x : Error)
          → let w3 = (begin (opened clock parent w)).1 in
            (begin (opened clock parent w)).0 ≡ none
            → fn (suc w.spans) (with_tx ctx) w3 ≡ (returned (ok a), w4)
            → w4.emitted ≡ xs ++ (span_ok (suc w.spans) attrs ∷ ys)
            → (commit w4).0 ≡ some x
            → Extends w4.emitted (commit w4).1.emitted
            → let (r, w') = atomic_observed clock begin commit rollback parent ctx fn w in
              (r ≡ returned (err (wrap "commit transaction" x)))
              × (status_after (suc w.spans) unset w'.emitted ≡ ok_status)
      unfolding atomic_observed measure
      atomic_hides_failure parent ctx fn w w4 a xs ys attrs x begun did said failed more =
          let span = suc w.spans in
          hidden span xs ys attrs x w (returned (ok a), w4) _
            (settle_hides commit rollback span a w4 xs ys attrs x said failed more)
            (began fn parent ctx w begun did)
