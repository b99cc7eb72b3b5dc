-- ===== src/Database/Traced/Sent.antt =====
-- What is emitted against what is sent to the database.
use qonto.Prelude.{
  ℕ, suc, ◌+◌, String, Bool, true, false, Bytes, ◌≡◌, refl, ap, ◌∙◌, Option, none, some, List, [],
  ◌∷◌, ◌++◌, if◌then◌else◌, Bool-cases, inl, inr, arith,
}
use qonto.Prelude.Int.{ℤ}
use qonto.Go.Errors.{Error}
use qonto.Go.Time.{Time}
use qonto.Go.Context.{Context}
use qonto.Platform.Instruments.{Attribute, queries_total}
use qonto.Platform.World.{Emission, span_started, span_ended, World}
use qonto.Platform.Tracer.{is_concurrency_conflict}
use qonto.Platform.Query.{
  failure, trace_query_start, trace_copy_from_start, record_query_metric, end_span, trace_query_end,
  trace_copy_from_end,
}
use qonto.Database.Engine.{Engine, Statement, select, update, insert, copy_from, raw, Target}
use qonto.Database.Traced.{traced_run, traced_control}
use qonto.Database.Traced.Metered.{
  IsMetered, count, count-append, is_added, measures, Grows, Grows-refl, Grows-trans,
  traced_run-Grows,
}

-- `sent` says how many statements an engine was sent, begin, commit and rollback among them.
pub record IsCounting (e : Engine) (sent : e.State → ℕ) : Type 0 where
  pub begins : (s : e.State) → sent (e.begin s).1 ≡ suc (sent s)
  pub commits : (s : e.State) → sent (e.commit s).1 ≡ suc (sent s)
  pub rolls_back : (s : e.State) → sent (e.rollback s).1 ≡ suc (sent s)
  pub runs :
      (target : Target) (q : Statement) (s : e.State) → sent (e.run target q s).1 ≡ suc (sent s)

abbrev pub counted : List Emission → ℕ
counted = count (is_added queries_total)

-- From `w` to `w'`, the counter of statements has grown by the number of those that were sent.
abbrev pub IsBalanced : (e : Engine) → (e.State → ℕ) → World e.State → World e.State → Type 0
IsBalanced e sent w w' = counted w'.emitted + sent w.state ≡ counted w.emitted + sent w'.state

pub IsBalanced-trans :
    (e : Engine) (sent : e.State → ℕ) (a b c : World e.State)
    → IsBalanced e sent a b
    → IsBalanced e sent b c
    → IsBalanced e sent a c
IsBalanced-trans e sent a b c h k = omega (arith, h, k)

-- Emissions that count no statement.
pub IsBalanced-emits :
    (e : Engine) (sent : e.State → ℕ) (a b : World e.State) (xs : List Emission)
    → IsBalanced e sent a b
    → counted xs ≡ 0
    → IsBalanced e sent a (record b { emitted = b.emitted ++ xs })
IsBalanced-emits e sent a b xs h none_counted =
    omega (arith, h, none_counted, count-append (is_added queries_total) b.emitted xs)

failure-counted :
    (span : ℕ) (x : Option Error) → counted (failure span x ++ (span_ended span ∷ [])) ≡ 0
unfolding failure
failure-counted span none = refl
failure-counted span (some e) = elim (Bool-cases (is_concurrency_conflict e)) [
  | inl conflict ↦ rw conflict refl
  | inr other ↦ rw other refl
]

started-counted :
    (before : List Emission) (on : Bool) (n parent : ℕ) (name : Bytes) (attrs : List Attribute)
    → counted (if on then before ++ (span_started n parent name attrs ∷ []) else before)
      ≡ counted before
started-counted before true n parent name attrs =
    omega
      (arith, count-append (is_added queries_total) before (span_started n parent name attrs ∷ []))
started-counted before false n parent name attrs = refl

-- A statement is counted once.
statement-counted :
    (before : List Emission) (on : Bool) (n parent : ℕ) (name : Bytes)
    (attrs labels : List Attribute) (d : ℤ) (span : ℕ) (x : Option Error)
    → counted (
        ((if on then before ++ (span_started n parent name attrs ∷ []) else before)
          ++ measures d labels)
        ++ (failure span x ++ (span_ended span ∷ [])))
      ≡ suc (counted before)
statement-counted before on n parent name attrs labels d span x =
    let start = if on then before ++ (span_started n parent name attrs ∷ []) else before in
    omega (
      arith,
      count-append (is_added queries_total) (start ++ measures d labels)
          (failure span x ++ (span_ended span ∷ [])),
      count-append (is_added queries_total) start (measures d labels),
      failure-counted span x,
      started-counted before on n parent name attrs,
    )

module _ (clock : ℕ → Time) (is_recording : ℕ → Bool) (sql_text : Statement → Bytes)
    (args : Statement → Option Bytes) (ctx : Context) (span : ℕ) (e : Engine) where
  traced_run-counted :
      (target : Target) (q : Statement) (w : World e.State)
      → counted (traced_run clock is_recording sql_text args ctx span e target q w).1.emitted
        ≡ suc (counted w.emitted)
  unfolding traced_run trace_query_start trace_copy_from_start trace_query_end trace_copy_from_end
      record_query_metric end_span
  traced_run-counted target (select a) w = statement-counted w.emitted _ _ _ _ _ _ _ _ _
  traced_run-counted target (update a) w = statement-counted w.emitted _ _ _ _ _ _ _ _ _
  traced_run-counted target (insert a) w = statement-counted w.emitted _ _ _ _ _ _ _ _ _
  traced_run-counted target (copy_from t c v) w = statement-counted w.emitted _ _ _ _ _ _ _ _ _
  traced_run-counted target (raw s v) w = statement-counted w.emitted _ _ _ _ _ _ _ _ _

  pub traced_control-IsBalanced :
      (sent : e.State → ℕ) (sql : String) (f : e.State → Option Error × e.State)
      → ((s : e.State) → sent (f s).1 ≡ suc (sent s))
      → (w : World e.State)
      → IsBalanced e sent w (traced_control clock is_recording sql_text args ctx span e sql f w).1
  unfolding traced_control trace_query_start trace_query_end record_query_metric end_span
  traced_control-IsBalanced sent sql f counts w =
      omega (arith, statement-counted w.emitted _ _ _ _ _ _ _ _ _, counts w.state)

-- The telemetry has grown by metered emissions, which count the statements that were sent.
abbrev pub Grew : (e : Engine) → World e.State → World e.State → Type 0
Grew e w w' =
    Grows w.emitted w'.emitted × ((sent : e.State → ℕ) → IsCounting e sent → IsBalanced e sent w w')

pub Grew-refl : (e : Engine) (w : World e.State) → Grew e w w
Grew-refl e w = (Grows-refl w.emitted, λ sent c. refl)

pub Grew-trans : (e : Engine) (a b c : World e.State) → Grew e a b → Grew e b c → Grew e a c
Grew-trans e a b c (g, h) (g', h') = (
  Grows-trans a.emitted b.emitted c.emitted g g',
  λ sent k. IsBalanced-trans e sent a b c (h sent k) (h' sent k),
)

pub Grew-emits :
    (e : Engine) (a b : World e.State) (xs : List Emission)
    → IsMetered xs
    → counted xs ≡ 0
    → Grew e a b
    → Grew e a (record b { emitted = b.emitted ++ xs })
Grew-emits e a b xs metered none_counted (g, h) = (
  Grows-trans a.emitted b.emitted (b.emitted ++ xs) g (xs, metered, refl),
  λ sent k. IsBalanced-emits e sent a b xs (h sent k) none_counted,
)

pub traced_run-Grew :
    (clock : ℕ → Time) (is_recording : ℕ → Bool) (sql_text : Statement → Bytes)
    (args : Statement → Option Bytes) (ctx : Context) (span : ℕ) (e : Engine) (target : Target)
    (q : Statement) (w : World e.State)
    → (traced_run clock is_recording sql_text args ctx span e target q w).1.state
      ≡ (e.run target q w.state).1
    → Grew e w (traced_run clock is_recording sql_text args ctx span e target q w).1
traced_run-Grew clock is_recording sql_text args ctx span e target q w same = (
  traced_run-Grows clock is_recording sql_text args ctx span e target q w,
  λ sent k. omega (
    arith,
    traced_run-counted clock is_recording sql_text args ctx span e target q w,
    ap sent same ∙ k.runs target q w.state,
  ),
)
