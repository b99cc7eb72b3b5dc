-- ===== src/Platform/Middleware/Gauge.antt =====
-- The gauge of requests in flight, over requests that are served side by side.
use text.Mathlib.Text.{◌==◌ as str_eq}
use qonto.Prelude.{
  ℕ, suc, Bytes, codes, Bool, String, ◌≡◌, refl, sym, ap, ◌∙◌, Option, none, some, List, [], ◌∷◌,
  ◌++◌, if◌then◌else◌, Bool-cases, inl, inr,
}
use qonto.Prelude.Int.{ℤ, pos, neg, ◌+ℤ◌, int_laws, +ℤ_assoc, +ℤ_left_comm, pos-zero_+ℤ, +ℤ-zero}
use qonto.Go.Time.{Time}
use qonto.Platform.Instruments.{Attribute, http_metrics}
use qonto.Platform.Recorder.{StatusRecorder, new_recorder, served}
use qonto.Platform.World.{Emission, added, span_started, World}
use qonto.Platform.Middleware.{
  HttpRequest, HttpHandler, red_labels, metrics_middleware, logging_middleware,
}
use qonto.Platform.Middleware.Log.{entered, trailing, middlewares_log}

-- `zs` holds the emissions of `xs` and of `ys`, those of each in their order.
pub data Merged {A : Type 0} : List A → List A → List A → Type 0 where
  both_empty : Merged [] [] []
  from_left : {x : A} {xs ys zs : List A} → Merged xs ys zs → Merged (x ∷ xs) ys (x ∷ zs)
  from_right : {y : A} {xs ys zs : List A} → Merged xs ys zs → Merged xs (y ∷ ys) (y ∷ zs)

-- The gauge is read over the series whose labels pass a test: one of them, some, or all.
module _ (series : List Attribute → Bool) where
  -- What an emission adds to the gauge.
  abbrev pub raised : Emission → ℤ
  raised (added i n labels) =
      if str_eq i.name http_metrics.in_flight.name
      then (if series labels then n else pos 0)
      else pos 0
  raised _ = pos 0

  abbrev pub gauge : List Emission → ℤ
  gauge [] = pos 0
  gauge (x ∷ xs) = raised x +ℤ gauge xs

  gauge-append : (xs ys : List Emission) → gauge (xs ++ ys) ≡ gauge xs +ℤ gauge ys
  gauge-append [] ys = sym (pos-zero_+ℤ (gauge ys))
  gauge-append (x ∷ xs) ys =
      ap (λ n. raised x +ℤ n) (gauge-append xs ys) ∙ sym (+ℤ_assoc (raised x) (gauge xs) (gauge ys))

  gauge-Merged : {xs ys zs : List Emission} → Merged xs ys zs → gauge zs ≡ gauge xs +ℤ gauge ys
  gauge-Merged both_empty = sym (pos-zero_+ℤ (pos 0))
  gauge-Merged (from_left {x} {xs} {ys} m) =
      ap (λ n. raised x +ℤ n) (gauge-Merged m) ∙ sym (+ℤ_assoc (raised x) (gauge xs) (gauge ys))
  gauge-Merged (from_right {y} {xs} {ys} m) =
      ap (λ n. raised y +ℤ n) (gauge-Merged m) ∙ +ℤ_left_comm (raised y) (gauge xs) (gauge ys)

  -- What one request of these labels adds to the gauge while it is in flight.
  abbrev one : List Attribute → ℤ
  one labels = if series labels then pos 1 else pos 0

  gauge-one_back :
      (labels : List Attribute) (xs ys : List Emission)
      → gauge xs ≡ pos 0
      → gauge ys ≡ (if series labels then neg (pos 1) else pos 0)
      → one labels +ℤ gauge (xs ++ ys) ≡ pos 0
  unfolding neg
  gauge-one_back labels xs ys h k =
      rw (gauge-append xs ys, h, k)
        (elim (Bool-cases (series labels)) [
          | inl counted ↦ rw counted (omega int_laws)
          | inr other ↦ rw other (omega int_laws)
        ])

  one_more :
      (labels : List Attribute) (n : ℕ)
      → one labels +ℤ pos n ≡ pos (if series labels then suc n else n)
  one_more labels n = elim (Bool-cases (series labels)) [
    | inl counted ↦ rw counted (omega int_laws)
    | inr other ↦ rw other (omega int_laws)
  ]

  module _ (clock : ℕ → Time) (trace_ids : ℕ → Option (Bytes × Bytes)) (S : Type 0) where
    gauge-trailing :
        (route : Bytes) (r : HttpRequest) (w w' : World S) (panic : Option String)
        (rec : StatusRecorder)
        → gauge (trailing clock trace_ids route r w panic rec w')
          ≡ (if series (red_labels route r) then neg (pos 1) else pos 0)
    gauge-trailing route r w w' (some p) rec = omega int_laws
    gauge-trailing route r w w' none rec = omega int_laws

    -- What a request emits, all of it.
    abbrev pub emissions : Bytes → HttpHandler S → ℕ → HttpRequest → World S → List Emission
    emissions route next parent r w =
        let y =
          logging_middleware clock trace_ids (metrics_middleware clock route next) parent r w in
        y.world.emitted

    -- The emissions of `n` requests of the series whose handlers run, of any others whose handlers
    -- run, and of any whose handlers have returned or panicked, in any order in which each request's
    -- own follow one another. A handler's own emissions add nothing to the gauge.
    pub data SideBySide : ℕ → List Emission → Type 1 where
      no_request : SideBySide 0 []
      in_handler :
          (route : Bytes) (r : HttpRequest) (parent : ℕ) (w : World S) (xs rest all : List Emission)
          (n : ℕ)
          → w.emitted ≡ []
          → gauge xs ≡ pos 0
          → Merged ((entered clock trace_ids route parent r w).emitted ++ xs) rest all
          → SideBySide n rest
          → SideBySide (if series (red_labels route r) then suc n else n) all
      left_behind :
          (route : Bytes) (r : HttpRequest) (parent : ℕ) (w : World S) (xs rest all : List Emission)
          (n : ℕ) (next : HttpHandler S)
          → w.emitted ≡ []
          → gauge xs ≡ pos 0
          → (next (suc w.spans) r (entered clock trace_ids route parent r w)).world.emitted
            ≡ (entered clock trace_ids route parent r w).emitted ++ xs
          → Merged (emissions route next parent r w) rest all
          → SideBySide n rest
          → SideBySide n all

    gauge-entered :
        (route : Bytes) (r : HttpRequest) (parent : ℕ) (w : World S) (xs : List Emission)
        → w.emitted ≡ []
        → gauge xs ≡ pos 0
        → gauge ((entered clock trace_ids route parent r w).emitted ++ xs)
          ≡ one (red_labels route r)
    gauge-entered route r parent w xs e h = rw e (
        pos-zero_+ℤ (one (red_labels route r) +ℤ gauge xs)
        ∙ ap (λ g. one (red_labels route r) +ℤ g) h
        ∙ +ℤ-zero (one (red_labels route r)))

    gauge-left :
        (route : Bytes) (r : HttpRequest) (parent : ℕ) (w : World S) (xs : List Emission)
        (next : HttpHandler S)
        → w.emitted ≡ []
        → gauge xs ≡ pos 0
        → (next (suc w.spans) r (entered clock trace_ids route parent r w)).world.emitted
          ≡ (entered clock trace_ids route parent r w).emitted ++ xs
        → gauge (emissions route next parent r w) ≡ pos 0
    gauge-left route r parent w xs next e h q =
        let (_, _, _, log) = middlewares_log clock trace_ids route next parent r w xs q in
        let x = next (suc w.spans) r (entered clock trace_ids route parent r w) in
        let labels = red_labels route r in
        let start = span_started (suc w.spans) parent (r.method ++ (codes " " ++ r.path)) [] in
        let rec = served x.events new_recorder in
        let end = trailing clock trace_ids route r w x.panicked rec x.world in
        ap gauge log
        ∙ ap (λ l. gauge (l ++ (start ∷ added http_metrics.in_flight (pos 1) labels ∷ (xs ++ end))))
            e
        ∙ pos-zero_+ℤ (one labels +ℤ gauge (xs ++ end))
        ∙ gauge-one_back labels xs end h (gauge-trailing route r w x.world x.panicked rec)

    -- Requests are served side by side, and the handlers' own emissions add nothing to the gauge of
    -- requests in flight. Then the gauge, read over any series of its labels, is the number of
    -- requests of those labels whose handlers run: one whose handler has returned or panicked does
    -- not count any more.
    pub in_flight_counts : (n : ℕ) (all : List Emission) → SideBySide n all → gauge all ≡ pos n
    in_flight_counts _ _ no_request = refl
    in_flight_counts _ _ (in_handler route r parent w xs rest all n e h m runs) =
        gauge-Merged m
        ∙ ap (λ g. g +ℤ gauge rest) (gauge-entered route r parent w xs e h)
        ∙ ap (λ g. one (red_labels route r) +ℤ g) (in_flight_counts n rest runs)
        ∙ one_more (red_labels route r) n
    in_flight_counts _ _ (left_behind route r parent w xs rest all n next e h q m runs) =
        gauge-Merged m
        ∙ ap (λ g. g +ℤ gauge rest) (gauge-left route r parent w xs next e h q)
        ∙ ap (λ g. pos 0 +ℤ g) (in_flight_counts n rest runs)
        ∙ pos-zero_+ℤ (pos n)
