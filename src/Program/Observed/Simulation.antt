-- ===== src/Program/Observed/Simulation.antt =====
-- Actions on the traced engine do what they do on the engine behind it, and add metered telemetry.
use mathlib.Core.Path.{subst}
use qonto.Prelude.{
  String, ◌≡◌, refl, ap, ◌∙◌, Option, none, some, if◌then◌else◌, Bool-cases, inl, inr,
}
use qonto.Go.Errors.{Result, ok, err, wrap, is_no_rows}
use qonto.Go.Action.{Action, wrapping, ◌>>=◌}
use qonto.Database.Engine.{Engine}
use qonto.Database.Traced.Sent.{Grew, Grew-refl, Grew-trans}
use qonto.Platform.World.{World}
use qonto.Store.Session.{optional}

module _ (e : Engine) where
  abbrev S : Type 0
  S = e.State

  abbrev pub SimAt : {A : Type 0} → World S → Result A × World S → Result A × S → Type 0
  SimAt w x y = (x.0 ≡ y.0) × (x.1.state ≡ y.1) × Grew e w x.1

  -- The same result, the same state, and more telemetry.
  abbrev pub Sim : {A : Type 0} → Action (World S) A → Action S A → Type 0
  Sim m m' = (w : World S) → SimAt w (m w) (m' w.state)

  pub Sim-pure : {A : Type 0} (r : Result A) → Sim (λ w. (r, w)) (λ s. (r, s))
  Sim-pure r w = (refl, refl, Grew-refl e w)

  pub Sim-bind :
      {A B : Type 0} (m : Action (World S) A) (m' : Action S A) (f : A → Action (World S) B)
      (f' : A → Action S B)
      → Sim m m'
      → ((a : A) → Sim (f a) (f' a))
      → Sim (m >>= f) (m' >>= f')
  Sim-bind {A} {B} m m' f f' h k w = on (m w) (m' w.state) (h w)
    where
      on :
          (x : Result A × World S) (z : Result A × S)
          → SimAt w x z
          → SimAt {A = B} w
              (elim x.0 [ ok a ↦ f a x.1 | err y ↦ (err y, x.1) ])
              (elim z.0 [ ok a ↦ f' a z.1 | err y ↦ (err y, z.1) ])
      on (ok a, w1) (ok b, s1) (p, q, g) =
          let (same, left, more) = k a w1 in
          let there : f' a w1.state ≡ f' b s1 = cc in
          (
            same ∙ ap (λ (z : Result B × S). z.0) there,
            left ∙ ap (λ (z : Result B × S). z.1) there,
            Grew-trans e w w1 (f a w1).1 g more,
          )
      on (ok a, w1) (err y, s1) (p, q, g) = cc
      on (err y, w1) (ok a, s1) (p, q, g) = cc
      on (err y, w1) (err y', s1) (p, q, g) = (cc, q, g)

  pub Sim-wrapping :
      {A : Type 0} (message : String) (m : Action (World S) A) (m' : Action S A)
      → Sim m m'
      → Sim (wrapping message m) (wrapping message m')
  Sim-wrapping {A} message m m' h w = on (m w) (m' w.state) (h w)
    where
      on :
          (x : Result A × World S) (z : Result A × S)
          → SimAt w x z
          → SimAt {A = A} w
              (elim x.0 [ ok a ↦ (ok a, x.1) | err y ↦ (err (wrap message y), x.1) ])
              (elim z.0 [ ok a ↦ (ok a, z.1) | err y ↦ (err (wrap message y), z.1) ])
      on (ok a, w1) (ok b, s1) h = h
      on (ok a, w1) (err y, s1) (p, q, g) = cc
      on (err y, w1) (ok a, s1) (p, q, g) = cc
      on (err y, w1) (err y', s1) (p, q, g) = (cc, q, g)

  pub Sim-optional :
      {A : Type 0} (message : String) (m : Action (World S) A) (m' : Action S A)
      → Sim m m'
      → Sim (optional message m) (optional message m')
  Sim-optional {A} message m m' h w = on (m w) (m' w.state) (h w)
    where
      finish : {T : Type 0} → Result A × T → Result (Option A) × T
      finish x = elim x.0 [
        | ok a ↦ (ok (some a), x.1)
        | err y ↦ if is_no_rows y then (ok none, x.1) else (err (wrap message y), x.1)
      ]

      on : (x : Result A × World S) (z : Result A × S) → SimAt w x z → SimAt w (finish x) (finish z)
      on (ok a, w1) (ok b, s1) (p, q, g) = (cc, q, g)
      on (ok a, w1) (err y, s1) (p, q, g) = cc
      on (err y, w1) (ok a, s1) (p, q, g) = cc
      on (err y, w1) (err y', s1) (p, q, g) =
          let same : y ≡ y' = cc in
          subst (λ z. SimAt w (finish (err y, w1)) (finish (err z, s1))) same
            (elim (Bool-cases (is_no_rows y)) [
              | inl missing ↦ rw missing (refl, q, g)
              | inr other ↦ rw other (refl, q, g)
            ])
