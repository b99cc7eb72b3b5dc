-- ===== src/Program/Observed/Statements.antt =====
-- One statement on the traced engine and on the engine behind it.
use mathlib.Core.Path.{subst}
use qonto.Prelude.{
  ℕ, String, Bool, Bytes, ◌≡◌, refl, ap, Option, none, some, List, if◌then◌else◌, Bool-cases, inl,
  inr,
}
use qonto.Go.Errors.{Error, Result, ok, err, wrap}
use qonto.Go.Time.{Time}
use qonto.Go.Action.{Action}
use qonto.Go.Context.{Context}
use qonto.Database.Engine.{
  Engine, Value, Statement, select, update, insert, copy_from, raw, Target, Reply,
}
use qonto.Database.Traced.{traced_run, traced}
use qonto.Database.Traced.Sent.{Grew-refl, traced_run-Grew}
use qonto.Platform.World.{World}
use qonto.Store.Session.{db, building, exec, query_row, read_done, read_row, is_unique_violation}
use qonto.Store.Idempotency.{tolerant}
use qonto.Platform.Query.{
  trace_query_start, trace_copy_from_start, record_query_metric, end_span, trace_query_end,
  trace_copy_from_end,
}
use qonto.Program.Observed.Simulation.{SimAt, Sim}

module _ (clock : ℕ → Time) (is_recording : ℕ → Bool) (sql_text : Statement → Bytes)
    (args : Statement → Option Bytes) (ctx : Context) (span : ℕ) (e : Engine) where
  abbrev pub te : Engine
  te = traced clock is_recording sql_text args ctx span e

  pub Sim-tolerant :
      (m : Action (World e.State) (Unit {0})) (m' : Action e.State (Unit {0}))
      → Sim e m m'
      → Sim e (tolerant te m) (tolerant e m')
  Sim-tolerant m m' h w = on (m w) (m' w.state) (h w)
    where
      finish : {T : Type 0} → Result (Unit {0}) × T → Result (Unit {0}) × T
      finish x = elim x.0 [
        | ok a ↦ (ok a, x.1)
        | err y ↦
            if is_unique_violation y then (ok tt, x.1) else (err (wrap "record idempotency" y), x.1)
      ]

      on :
          (x : Result (Unit {0}) × World e.State) (y : Result (Unit {0}) × e.State)
          → SimAt e w x y
          → SimAt e w (finish x) (finish y)
      on (ok a, w1) (ok b, s1) h = h
      on (ok a, w1) (err y, s1) (p, q, g) = cc
      on (err y, w1) (ok a, s1) (p, q, g) = cc
      on (err y, w1) (err y', s1) (p, q, g) =
          let same : y ≡ y' = cc in
          subst (λ z. SimAt e w (finish (err y, w1)) (finish (err z, s1))) same
            (elim (Bool-cases (is_unique_violation y)) [
              | inl violated ↦ rw violated (refl, q, g)
              | inr other ↦ rw other (refl, q, g)
            ])

  pub Sim-building :
      {A : Type 0} (message : String) (q : Statement) (m : Action (World e.State) A)
      (m' : Action e.State A)
      → Sim e m m'
      → Sim e (building te message q m) (building e message q m')
  Sim-building {A} message q m m' h w = on (e.to_sql q)
    where
      on :
          (o : Option Error)
          → SimAt e {A = A} w
              (elim o [ none ↦ m w | some x ↦ (err (wrap message x), w) ])
              (elim o [ none ↦ m' w.state | some x ↦ (err (wrap message x), w.state) ])
      on none = h w
      on (some x) = (refl, refl, Grew-refl e w)

  -- A statement, with what is read off its reply.
  pub Sim-run :
      {A : Type 0} (read : Reply → Result A) (target : Target) (q : Statement)
      → ((w : World e.State)
          → ((te.run target q w).0 ≡ (e.run target q w.state).0)
            × ((te.run target q w).1.state ≡ (e.run target q w.state).1))
      → Sim e
          (λ w. let (r, w') = te.run target q w in (read r, w'))
          (λ s. let (r, s') = e.run target q s in (read r, s'))
  Sim-run read target q h w = (
    ap read (h w).0,
    (h w).1,
    traced_run-Grew clock is_recording sql_text args ctx span e target q w (h w).1,
  )

  pub same_run :
      (target : Target) (q : Statement) (w : World e.State)
      → ((te.run target q w).0 ≡ (e.run target q w.state).0)
        × ((te.run target q w).1.state ≡ (e.run target q w.state).1)
  unfolding traced_run trace_query_start trace_copy_from_start trace_query_end trace_copy_from_end
      record_query_metric end_span
  same_run target (select a) w = (refl, refl)
  same_run target (update a) w = (refl, refl)
  same_run target (insert a) w = (refl, refl)
  same_run target (copy_from t c v) w = (refl, refl)
  same_run target (raw s v) w = (refl, refl)

  pub Sim-query_row :
      {A : Type 0} (q : Statement) (scan : List Value → Result A)
      → Sim e (query_row te ctx q scan) (query_row e ctx q scan)
  unfolding query_row
  Sim-query_row q scan = Sim-run (read_row scan) (db ctx) q (same_run (db ctx) q)

  pub Sim-exec : (q : Statement) → Sim e (exec te ctx q) (exec e ctx q)
  unfolding exec
  Sim-exec q = Sim-run read_done (db ctx) q (same_run (db ctx) q)
