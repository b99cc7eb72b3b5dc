-- ===== src/Txn/Observed/Log.antt =====
-- What `Atomic` leaves in the telemetry.
use qonto.Prelude.{
  ℕ, suc, codes, ◌≡◌, ap, ◌∙◌, Option, none, some, List, [], ◌∷◌, ◌++◌, append_assoc,
}
use qonto.Prelude.Int.{ℤ, ◌-ℤ◌}
use qonto.Go.Errors.{Error, ok, err, wrap}
use qonto.Go.Time.{Time}
use qonto.Go.Context.{Context, with_tx}
use qonto.Platform.Instruments.{transaction_duration}
use qonto.Platform.World.{Emission, timed, span_started, span_ended, World, emit, start_span, now}
use qonto.Txn.{Exit, returned, panicked}
use qonto.Txn.Observed.{verdict, measure, settle, atomic_observed}

-- `P` is what is asked of the telemetry that begin, commit, rollback and the function add.
module _ (P : List Emission → Type 0) where
  -- Emissions with `P` are added behind those that were there.
  abbrev pub Extends : List Emission → List Emission → Type 0
  Extends before after = (xs : List Emission) × P xs × (after ≡ before ++ xs)

  -- Between the start of a span and its end stands what else was emitted, then the verdict on the
  -- exit, then a duration.
  abbrev pub IsFramed : {S A : Type 0} → ℕ → World S → Exit A × World S → Type 0
  IsFramed parent w (r, w') =
      let span = suc w.spans in
      (xs : List Emission) × P xs
      × (d : ℤ) × (w'.emitted
          ≡ w.emitted
            ++ (span_started span parent (codes "txn.Atomic") []
                ∷ (xs
                    ++ (verdict span r ∷ timed transaction_duration d [] ∷ span_ended span ∷ []))))

framed :
    (before : List Emission) (start v t e : Emission) (xs : List Emission)
    → (((before ++ (start ∷ [])) ++ xs) ++ (v ∷ [])) ++ (t ∷ e ∷ [])
      ≡ before ++ (start ∷ (xs ++ (v ∷ t ∷ e ∷ [])))
framed before start v t e xs = simp append_assoc

module _ (P : List Emission → Type 0) {S A : Type 0}
    (commit rollback : World S → Option Error × World S)
    (commits : (w : World S) → Extends P w.emitted (commit w).1.emitted)
    (rolls_back : (w : World S) → Extends P w.emitted (rollback w).1.emitted) where
  -- The log ends with the verdict on the exit that is returned.
  abbrev IsSettled : ℕ → World S → Exit A × World S → Type 0
  IsSettled span w (r, w') =
      (xs : List Emission) × P xs × (w'.emitted ≡ (w.emitted ++ xs) ++ (verdict span r ∷ []))

  abbrev exit_of : A → Option Error → Exit A
  exit_of a none = returned (ok a)
  exit_of a (some x) = returned (err (wrap "commit transaction" x))

  settled :
      (span : ℕ) (a : A) (w : World S) (x : Option Error × World S)
      → Extends P w.emitted x.1.emitted
      → IsSettled span w (
          let r : Exit A = elim x.0 [
            | none ↦ returned (ok a)
            | some y ↦ returned (err (wrap "commit transaction" y))
          ] in
          (r, emit (verdict span r) x.1))
  settled span a w (none, w') (xs, h, p) =
      (xs, h, ap (λ l. l ++ (verdict span (exit_of a none) ∷ [])) p)
  settled span a w (some y, w') (xs, h, p) =
      (xs, h, ap (λ l. l ++ (verdict span (exit_of a (some y)) ∷ [])) p)

  settle-IsSettled :
      (span : ℕ) (r : Exit A) (w : World S) → IsSettled span w (settle commit rollback span r w)
  unfolding settle
  settle-IsSettled span (panicked p) w =
      let (xs, h, e) = rolls_back w in
      let v : Exit A = panicked p in (xs, h, ap (λ l. l ++ (verdict span v ∷ [])) e)
  settle-IsSettled span (returned (err x)) w =
      let (xs, h, e) = rolls_back w in
      let v : Exit A = returned (err x) in (xs, h, ap (λ l. l ++ (verdict span v ∷ [])) e)
  settle-IsSettled span (returned (ok a)) w = settled span a w (commit w) (commits w)

module _ (P : List Emission → Type 0)
    (P-append : (xs ys : List Emission) → P xs → P ys → P (xs ++ ys)) (clock : ℕ → Time)
    {S A : Type 0} (begin commit rollback : World S → Option Error × World S)
    (begins : (w : World S) → Extends P w.emitted (begin w).1.emitted)
    (commits : (w : World S) → Extends P w.emitted (commit w).1.emitted)
    (rolls_back : (w : World S) → Extends P w.emitted (rollback w).1.emitted)
    (fn : ℕ → Context → World S → Exit A × World S)
    (fn_emits : (span : ℕ) (ctx : Context) (w : World S)
      → Extends P w.emitted (fn span ctx w).1.emitted) where
  measured :
      (parent : ℕ) (w : World S) (start : Time) (r : Exit A) (w' : World S) (xs : List Emission)
      → P xs
      → let span = suc w.spans in
        w'.emitted
          ≡ ((w.emitted ++ (span_started span parent (codes "txn.Atomic") [] ∷ [])) ++ xs)
            ++ (verdict span r ∷ [])
        → IsFramed P parent w (r, measure clock span start w')
  unfolding measure
  measured parent w start r w' xs h p =
      let span = suc w.spans in
      let (end, w'') = now clock w' in
      let t = timed transaction_duration (end -ℤ start) [] in
      (
        xs,
        h,
        end -ℤ start,
        ap (λ l. l ++ (t ∷ span_ended span ∷ [])) p
            ∙ framed w.emitted (span_started span parent (codes "txn.Atomic") []) (verdict span r) t
                (span_ended span) xs,
      )

  began :
      (parent : ℕ) (ctx : Context) (w : World S) (start : Time) (x : Option Error × World S)
      → let span = suc w.spans in
        Extends P (w.emitted ++ (span_started span parent (codes "txn.Atomic") [] ∷ [])) x.1.emitted
        → IsFramed P {A = A} parent w (elim x.0 [
          | some y ↦
              let r : Exit A = returned (err (wrap "begin transaction" y)) in
              (r, measure clock span start (emit (verdict span r) x.1))
          | none ↦
              let (r, w4) = fn span (with_tx ctx) x.1 in
              let (r', w5) = settle commit rollback span r w4 in (r', measure clock span start w5)
        ])
  began parent ctx w start (some y, w3) (xs, h, p) =
      let r : Exit A = returned (err (wrap "begin transaction" y)) in
      let span = suc w.spans in
      measured parent w start r (emit (verdict span r) w3) xs h
        (ap (λ l. l ++ (verdict span r ∷ [])) p)
  began parent ctx w start (none, w3) (xs, h, p) =
      let span = suc w.spans in
      let (r, w4) = fn span (with_tx ctx) w3 in
      let (r', w5) = settle commit rollback span r w4 in
      let (ys, k, q) = fn_emits span (with_tx ctx) w3 in
      let (zs, m, u) = settle-IsSettled P commit rollback commits rolls_back span r w4 in
      measured parent w start r' w5 (xs ++ (ys ++ zs)) (P-append xs _ h (P-append ys zs k m)) (
        u
        ∙ ap (λ l. (l ++ zs) ++ (verdict span r' ∷ [])) (q ∙ ap (λ l. l ++ ys) p)
        ∙ simp append_assoc)

  -- Where begin, commit, rollback and the function only add to the telemetry, with `P`, every call of
  -- `Atomic` opens one span, and ends the telemetry with the verdict on the exit that it returns,
  -- one duration and the end of the span: on an error of begin or commit, an error or a panic of
  -- the function, and a commit alike.
  pub atomic_observed-IsFramed :
      (parent : ℕ) (ctx : Context) (w : World S)
      → IsFramed P parent w (atomic_observed clock begin commit rollback parent ctx fn w)
  unfolding atomic_observed
  atomic_observed-IsFramed parent ctx w =
      let (span, w1) = start_span parent (codes "txn.Atomic") [] w in
      let (start, w2) = now clock w1 in began parent ctx w start (begin w2) (begins w2)
