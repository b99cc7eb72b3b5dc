-- ===== src/Txn/Observed/Erasure.antt =====
-- Without its telemetry, `Atomic` is the `atomic_exit` of Txn.
use qonto.Prelude.{ℕ, suc, codes, ◌≡◌, refl, ap, ◌∙◌, Option, none, some, [], ◌∷◌, ◌++◌}
use qonto.Go.Errors.{Error, Result, ok, err, wrap}
use qonto.Go.Time.{Time}
use qonto.Go.Context.{Context, with_tx}
use qonto.Database.Engine.{Engine}
use qonto.Platform.World.{span_started, World, emit}
use qonto.Txn.{Exit, returned, panicked, finish, finish_exit, atomic_exit}
use qonto.Txn.Observed.{verdict, measure, settle, atomic_observed}

module _ (e : Engine) where
  -- `g` gives what `f` gives, and leaves its state.
  abbrev pub Agrees : {B : Type 0} → B × World e.State → B × e.State → Type 0
  Agrees (b, w) (c, s) = (b ≡ c) × (w.state ≡ s)

  abbrev pub ActsAs :
      {B : Type 0} → (World e.State → B × World e.State) → (e.State → B × e.State) → Type 0
  ActsAs g f = (w : World e.State) → Agrees (g w) (f w.state)

  module _ {A : Type 0} (commit rollback : World e.State → Option Error × World e.State)
      (commits : ActsAs commit e.commit) (rolls_back : ActsAs rollback e.rollback) where
    committed :
        (span : ℕ) (a : A) (x : Option Error × World e.State) (y : Option Error × e.State)
        → Agrees x y
        → Agrees
            (let r : Exit A = elim x.0 [
              | none ↦ returned (ok a)
              | some z ↦ returned (err (wrap "commit transaction" z))
            ] in
              (r, emit (verdict span r) x.1))
            (let (r', s') : Result A × e.State = elim y.0 [
              | none ↦ (ok a, y.1)
              | some z ↦ (err (wrap "commit transaction" z), y.1)
            ] in
              (returned r', s'))
    committed span a (none, w) (none, s) (p, q) = (refl, q)
    committed span a (none, w) (some z, s) (p, q) = cc
    committed span a (some z, w) (none, s) (p, q) = cc
    committed span a (some z, w) (some z', s) (p, q) = (cc, q)

    settle-Agrees :
        (span : ℕ) (r : Exit A) (w : World e.State)
        → Agrees (settle commit rollback span r w) (finish_exit e r w.state)
    unfolding settle finish_exit finish
    settle-Agrees span (panicked p) w = (refl, (rolls_back w).1)
    settle-Agrees span (returned (err x)) w = (refl, (rolls_back w).1)
    settle-Agrees span (returned (ok a)) w =
        committed span a (commit w) (e.commit w.state) (commits w)

    module _ (clock : ℕ → Time) (begin : World e.State → Option Error × World e.State)
        (fn : ℕ → Context → World e.State → Exit A × World e.State)
        (f : Context → e.State → Exit A × e.State)
        (does : (span : ℕ) (ctx : Context) → ActsAs (fn span ctx) (f ctx)) where
      settled :
          (span : ℕ) (start : Time) (x : Exit A × World e.State) (y : Exit A × e.State)
          → Agrees x y
          → Agrees
              (let (r', w) = settle commit rollback span x.0 x.1 in
                (r', measure clock span start w))
              (finish_exit e y.0 y.1)
      unfolding measure
      settled span start (r, w) (r', s) (p, q) =
          let (same, left) = settle-Agrees span r w in
          (
            same ∙ ap (λ t. (finish_exit e r t).0) q ∙ ap (λ z. (finish_exit e z s).0) p,
            left ∙ ap (λ t. (finish_exit e r t).1) q ∙ ap (λ z. (finish_exit e z s).1) p,
          )

      began :
          (span : ℕ) (ctx : Context) (start : Time) (x : Option Error × World e.State)
          (y : Option Error × e.State)
          → Agrees x y
          → Agrees {B = Exit A}
              (elim x.0 [
                | some z ↦
                    let r : Exit A = returned (err (wrap "begin transaction" z)) in
                    (r, measure clock span start (emit (verdict span r) x.1))
                | none ↦
                    let (r, w4) = fn span (with_tx ctx) x.1 in
                    let (r', w5) = settle commit rollback span r w4 in
                    (r', measure clock span start w5)
              ])
              (elim y.0 [
                | some z ↦ (returned (err (wrap "begin transaction" z)), y.1)
                | none ↦ let (r, s2) = f (with_tx ctx) y.1 in finish_exit e r s2
              ])
      unfolding measure
      began span ctx start (some z, w) (some z', s) (p, q) = (cc, q)
      began span ctx start (some z, w) (none, s) (p, q) = cc
      began span ctx start (none, w) (some z, s) (p, q) = cc
      began span ctx start (none, w) (none, s) (p, q) =
          let (same, left) = does span (with_tx ctx) w in
          settled span start (fn span (with_tx ctx) w) (f (with_tx ctx) s)
            (same ∙ ap (λ t. (f (with_tx ctx) t).0) q, left ∙ ap (λ t. (f (with_tx ctx) t).1) q)

      -- Where begin, commit, rollback and the function do to the state what they do without
      -- telemetry, `Atomic` with its telemetry returns, panics and leaves the state as without it.
      pub atomic_observed-atomic_exit :
          ActsAs begin e.begin
          → (parent : ℕ) (ctx : Context)
          → ActsAs (atomic_observed clock begin commit rollback parent ctx fn) (atomic_exit e ctx f)
      unfolding atomic_observed atomic_exit
      atomic_observed-atomic_exit begins parent ctx w =
          let span = suc w.spans in
          let start = clock w.readings in
          let w2 : World e.State = record {
            state = w.state;
            readings = suc w.readings;
            spans = span;
            emitted = w.emitted ++ (span_started span parent (codes "txn.Atomic") [] ∷ []);
          } in
          began span ctx start (begin w2) (e.begin w.state) (begins w2)
