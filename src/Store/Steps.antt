-- ===== src/Store/Steps.antt =====
-- How the operations of the store run one statement, in an open transaction.
use qonto.Prelude.{
  String, ◌≡◌, refl, sym, ap, ◌∙◌, inl, inr, Bool-cases, Option, none, some, List, [], ◌∷◌, map,
}
use qonto.Prelude.Int.{ℤ}
use qonto.Go.Errors.{Error, Result, ok, err, wrap, is_no_rows}
use qonto.Go.Action.{Action, wrapping}
use qonto.Go.Context.{Context, with_tx}
use qonto.Model.Transfer.{CreditTransfer}
use qonto.Database.Schema.{Tables, posting_of}
use qonto.Database.Engine.{Engine, Value, Statement, Reply, Target}
use qonto.Database.Laws.{AnswersAt, Answers, found_rows, Copies}
use qonto.Service.Contract.{Does, DoesAt, May, MayAt}
use qonto.Txn.Laws.{view}
use qonto.Store.Session.{
  db, read_row, read_done, building, query_row, exec, optional, is_unique_violation,
}
use qonto.Store.Idempotency.{tolerant}
use qonto.Store.Transactions.{copy_row}

module _ {ℓ} {A : Type ℓ} (e : Engine) (row : A → List Value) where
  found_none : (o : Option A) → [] ≡ found_rows e row o → none ≡ o
  found_none none h = refl
  found_none (some a) h = cc

  pub found_some :
      (o : Option A) {r : List Value} {rs : List (List Value)}
      → r ∷ rs ≡ found_rows e row o
      → (a : A) × (o ≡ some a) × (r ≡ row a)
  found_some none h = cc
  found_some (some a) h = (a, refl, cc)

module _ (e : Engine) {A : Type 0} where
  building-DoesAt :
      (message : String) (q : Statement) (m : Action e.State A) (s : e.State)
      (P : A → Tables → Type 0) (o : Option Error)
      → DoesAt (view e) s P (m s)
      → DoesAt (view e) s P (elim o [ none ↦ m s | some x ↦ (err (wrap message x), s) ])
  building-DoesAt message q m s P none h = h
  building-DoesAt message q m s P (some x) h = refl

  pub building-Does :
      (message : String) (q : Statement) (m : Action e.State A) (s : e.State)
      {P : A → Tables → Type 0}
      → DoesAt (view e) s P (m s)
      → Does (view e) s P (building e message q m s)
  building-Does message q m s {P} h = record {
    holds = building-DoesAt message q m s P (e.to_sql q) h;
  }

  -- A look-up of at most one row.
  pub optional-Does :
      (message : String) (scan : List Value → Result A) (row : A → List Value)
      (exact : (a : A) → scan (row a) ≡ ok a) (find : Tables → Option A) (s : e.State)
      (x : Reply × e.State)
      → AnswersAt e s (λ rs t. (rs ≡ found_rows e row (find (e.current s))) × (t ≡ e.current s)) x
      → DoesAt
          (view e)
          s
          (λ o t. (o ≡ find t) × (t ≡ e.current s))
          (optional message (λ (_ : e.State). (read_row scan x.0, x.1)) s)
  unfolding read_row is_no_rows
  optional-Does message scan row exact find s (Reply.failed y, s') (c, a, n) = rw n c
  optional-Does message scan row exact find s (Reply.broken _ y, s') (c, a, n) = rw n c
  optional-Does message scan row exact find s (Reply.rows [], s') (c, a, (r, t)) =
      (c, a, (found_none e row _ r ∙ ap find (sym t), t))
  optional-Does message scan row exact find s (Reply.rows (r ∷ rs), s') (c, a, (q, t)) =
      let (v, ev, er) = found_some e row _ q in
      rw (er, exact v) (c, a, (sym ev ∙ ap find (sym t), t))

  -- A statement that returns one row, read by `scan`.
  pub wrapping-Does :
      (message : String) (scan : List Value → Result A) (s : e.State)
      (Q : List (List Value) → Tables → Type 0) (P : A → Tables → Type 0)
      → ((r : List Value) (rs : List (List Value)) (t : Tables)
          → Q (r ∷ rs) t
          → (a : A) × (scan r ≡ ok a) × P a t)
      → (x : Reply × e.State) → AnswersAt e s Q x
      → DoesAt (view e) s P (wrapping message (λ (_ : e.State). (read_row scan x.0, x.1)) s)
  unfolding read_row
  wrapping-Does message scan s Q P h (Reply.failed y, s') (c, a, n) = c
  wrapping-Does message scan s Q P h (Reply.broken _ y, s') (c, a, n) = c
  wrapping-Does message scan s Q P h (Reply.rows [], s') (c, a, q) = c
  wrapping-Does message scan s Q P h (Reply.rows (r ∷ rs), s') (c, a, q) =
      let (v, es, p) = h r rs _ q in rw es (c, a, p)

module _ (e : Engine) where
  -- A statement whose rows are not read.
  pub done-Does :
      (message : String) (s : e.State) (P : Tables → Type 0) (x : Reply × e.State)
      → AnswersAt e s (λ _ t. P t) x
      → DoesAt (view e) s (λ _ t. P t) (wrapping message (λ (_ : e.State). (read_done x.0, x.1)) s)
  unfolding read_done
  done-Does message s P (Reply.failed y, s') (c, a, n) = c
  done-Does message s P (Reply.broken _ y, s') (c, a, n) = c
  done-Does message s P (Reply.rows rs, s') h = h

  -- An insert that may be refused as a duplicate: then the transaction has failed.
  pub tolerant-May :
      (s : e.State) (P : Tables → Type 0) (x : Reply × e.State)
      → AnswersAt e s (λ _ t. P t) x
      → MayAt (view e) s (λ _ t. P t) (tolerant e (λ (_ : e.State). (read_done x.0, x.1)) s)
  unfolding read_done
  tolerant-May s P (Reply.failed y, s') (c, a, n) = elim (Bool-cases (is_unique_violation y)) [
    | inl dup ↦ rw dup (c, inl a)
    | inr other ↦ rw other c
  ]
  tolerant-May s P (Reply.broken _ y, s') (c, a, n) = elim (Bool-cases (is_unique_violation y)) [
    | inl dup ↦ rw dup (c, inl a)
    | inr other ↦ rw other c
  ]
  tolerant-May s P (Reply.rows rs, s') (c, a, p) = (c, inr p)

  pub building-May :
      (message : String) (q : Statement) (m : Action e.State (Unit {0})) (s : e.State)
      {P : Unit {0} → Tables → Type 0}
      → MayAt (view e) s P (m s)
      → May (view e) s P (building e message q m s)
  building-May message q m s {P} h = record { holds = go (e.to_sql q) }
    where
      go :
          (o : Option Error)
          → MayAt (view e) s P (elim o [ none ↦ m s | some x ↦ (err (wrap message x), s) ])
      go none = h
      go (some x) = refl

  pub Copies-copy_row :
      (account_id batch_id : ℤ) (ts : List CreditTransfer)
      → Copies e (map (posting_of account_id batch_id) ts) (map (copy_row account_id batch_id) ts)
  unfolding copy_row
  Copies-copy_row account_id batch_id [] = tt
  Copies-copy_row account_id batch_id (t ∷ ts) =
      ((batch_id, refl, refl), Copies-copy_row account_id batch_id ts)

  -- The four kinds of statements, each in an open transaction.
  module _ (ctx : Context) {s : e.State} {q : Statement} where
    pub finds :
        {A : Type 0} (message reading : String) (scan : List Value → Result A)
        (row : A → List Value)
        → ((a : A) → scan (row a) ≡ ok a)
        → (find : Tables → Option A)
        → Answers e s
            (λ rs t. (rs ≡ found_rows e row (find (e.current s))) × (t ≡ e.current s))
            (e.run Target.tx q s)
        → Does
            (view e)
            s
            (λ o t. (o ≡ find t) × (t ≡ e.current s))
            (building e message q (optional reading (query_row e (with_tx ctx) q scan)) s)
    unfolding query_row db
    finds message reading scan row exact find h =
        building-Does e message q (optional reading (query_row e (with_tx ctx) q scan)) s
          (optional-Does e reading scan row exact find s (e.run Target.tx q s) h.holds)

    pub returns :
        {A : Type 0} (message reading : String) (scan : List Value → Result A)
        {Q : List (List Value) → Tables → Type 0} {P : A → Tables → Type 0}
        → Answers e s Q (e.run Target.tx q s)
        → ((r : List Value) (rs : List (List Value)) (t : Tables)
            → Q (r ∷ rs) t
            → (a : A) × (scan r ≡ ok a) × P a t)
        → Does
            (view e)
            s
            P
            (building e message q (wrapping reading (query_row e (with_tx ctx) q scan)) s)
    unfolding query_row db
    returns message reading scan {Q} {P} h read =
        building-Does e message q (wrapping reading (query_row e (with_tx ctx) q scan)) s
          (wrapping-Does e reading scan s Q P read (e.run Target.tx q s) h.holds)

    pub executes :
        (reading : String) {P : Tables → Type 0}
        → Answers e s (λ _ t. P t) (e.run Target.tx q s)
        → Does (view e) s (λ _ t. P t) (wrapping reading (exec e (with_tx ctx) q) s)
    unfolding exec db
    executes reading {P} h = record { holds = done-Does reading s P (e.run Target.tx q s) h.holds }

    pub tolerates :
        (message : String) {P : Tables → Type 0}
        → Answers e s (λ _ t. P t) (e.run Target.tx q s)
        → May (view e) s (λ _ t. P t) (building e message q (tolerant e (exec e (with_tx ctx) q)) s)
    unfolding exec db
    tolerates message {P} h =
        building-May message q (tolerant e (exec e (with_tx ctx) q)) s
          (tolerant-May s P (e.run Target.tx q s) h.holds)

pub Does-map :
    (e : Engine) {A : Type 0} {s : e.State} {P Q : A → Tables → Type 0} {x : Result A × e.State}
    → ((a : A) (t : Tables) → P a t → Q a t)
    → Does (view e) s P x
    → Does (view e) s Q x
Does-map e {A} {s} {P} {Q} {x} k h = record { holds = go x h.holds }
  where
    go : (x : Result A × e.State) → DoesAt (view e) s P x → DoesAt (view e) s Q x
    go (ok a, s') (c, d, p) = (c, d, k a _ p)
    go (err _, s') c = c
