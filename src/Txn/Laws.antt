-- ===== src/Txn/Laws.antt =====
-- What `Atomic` guarantees.
use mathlib.Core.Path.{subst}
use qonto.Prelude.{◌≡◌, sym, ◌∙◌, ◌⊎◌, inl, inr, arith, true, false, Option, none, some, String}
use qonto.Go.Errors.{Error, Result, ok, err, wrap}
use qonto.Go.Action.{Action}
use qonto.Go.Context.{Context, with_tx}
use qonto.Database.Schema.{Tables}
use qonto.Database.Engine.{Engine}
use qonto.Database.Laws.{IsPostgres, CommitsAt, BeginsAt}
use qonto.Service.Interfaces.{Transactor}
use qonto.Service.Contract.{View, May, MayAt, Settled, SettledAt, TransactorLaws}
use qonto.Txn.{Exit, returned, panicked, finish, atomic, finish_exit, atomic_exit}

abbrev pub view : (e : Engine) → View e.State
view e = record { committed = e.committed; current = e.current; aborted = e.aborted }

module _ (e : Engine) (postgres : IsPostgres e) {A : Type 0} where
  -- The end of `finish`, on the reply `x` to the commit.
  committing :
      (s s2 : e.State) (P : A → Tables → Type 0) (a : A) (x : Option Error × e.State)
      → CommitsAt e s2 x
      → (e.aborted s2 ≡ true) ⊎ P a (e.current s2)
      → e.committed s2 ≡ e.committed s
      → SettledAt
          (view e)
          s
          P
          (elim x.0 [ none ↦ (ok a, x.1) | some y ↦ (err (wrap "commit transaction" y), x.1) ])
  committing s s2 P a (none, s3) (sound, moved) (inl dead) c = cc
  committing s s2 P a (none, s3) (sound, moved) (inr p) c = subst (P a) (sym moved) p
  committing s s2 P a (some y, s3) (inl same) p c = inl (same ∙ c)
  committing s s2 P a (some y, s3) (inr (sound, moved)) (inl dead) c = cc
  committing s s2 P a (some y, s3) (inr (sound, moved)) (inr p) c =
      inr (a, subst (P a) (sym moved) p)

  finish-Settled :
      (s : e.State) (P : A → Tables → Type 0) (x : Result A × e.State)
      → MayAt (view e) s P x
      → SettledAt (view e) s P (finish e x.0 x.1)
  unfolding finish
  finish-Settled s P (err y, s2) c = inl (postgres.rolls_back s2 ∙ c)
  finish-Settled s P (ok a, s2) (c, p) = committing s s2 P a (e.commit s2) (postgres.commits s2) p c

  beginning :
      (ctx : Context) (fn : Context → Action e.State A) (s : e.State) (P : A → Tables → Type 0)
      (x : Option Error × e.State)
      → BeginsAt e s x
      → ((s1 : e.State)
          → e.current s1 ≡ e.committed s
          → e.committed s1 ≡ e.committed s
          → e.aborted s1 ≡ false
          → May (view e) s1 P (fn (with_tx ctx) s1))
      → SettledAt (view e) s P (elim x.0 [
        | some y ↦ (err (wrap "begin transaction" y), x.1)
        | none ↦ let (r, s2) = fn (with_tx ctx) x.1 in finish e r s2
      ])
  beginning ctx fn s P (some y, s1) c h = inl c
  beginning ctx fn s P (none, s1) (c, now, sound) h =
      finish-Settled s P (fn (with_tx ctx) s1)
        (from_start c (fn (with_tx ctx) s1) (h s1 now c sound).holds)
    where
      from_start :
          {s s1 : e.State}
          → e.committed s1 ≡ e.committed s
          → (x : Result A × e.State) → MayAt (view e) s1 P x
          → MayAt (view e) s P x
      from_start c (ok a, _) (d, p) = (d ∙ c, p)
      from_start c (err _, _) d = d ∙ c

  -- `Atomic` settles whatever its function may do inside one transaction.
  pub atomic-Settled :
      (ctx : Context) (fn : Context → Action e.State A) (s : e.State) (P : A → Tables → Type 0)
      → ((s1 : e.State)
          → e.current s1 ≡ e.committed s
          → e.committed s1 ≡ e.committed s
          → e.aborted s1 ≡ false
          → May (view e) s1 P (fn (with_tx ctx) s1))
      → Settled (view e) s P (atomic e ctx fn s)
  unfolding atomic
  atomic-Settled ctx fn s P h = record {
    holds = beginning ctx fn s P (e.begin s) (postgres.begins s) h;
  }

abbrev pub transactor : (e : Engine) {A : Type 0} → Transactor e.State A
transactor e = record { atomic = atomic e }

pub transactor-Laws :
    (e : Engine) {A : Type 0} → IsPostgres e → TransactorLaws (view e) (transactor e {A = A})
transactor-Laws e postgres = record { atomic_rule = atomic-Settled e postgres }

-- Where the function does not panic, `Atomic` in full is `atomic`.
pub atomic_exit-returned :
    (e : Engine) {A : Type 0} (ctx : Context) (fn : Context → Action e.State A) (s : e.State)
    → atomic_exit e ctx (λ c t. let (r, t') = fn c t in (returned r, t')) s
      ≡ (let (r, s') = atomic e ctx fn s in (returned r, s'))
unfolding atomic_exit atomic
atomic_exit-returned e ctx fn s = ground arith

unwinds :
    (e : Engine)
    → IsPostgres e
    → {A : Type 0} (x : Exit A × e.State) (p : String) → (finish_exit e x.0 x.1).0 ≡ panicked p
    → e.committed (finish_exit e x.0 x.1).1 ≡ e.committed x.1
unfolding finish_exit
unwinds e postgres (panicked q, s) p h = postgres.rolls_back s
unwinds e postgres (returned r, s) p h = cc

panics_commit_nothing :
    (e : Engine)
    → IsPostgres e
    → {A : Type 0} (ctx : Context) (fn : Context → e.State → Exit A × e.State) (s : e.State)
      (x : Option Error × e.State)
    → BeginsAt e s x
    → (p : String) → ((c : Context) (s1 : e.State) → e.committed (fn c s1).1 ≡ e.committed s1)
    → let r : Exit A × e.State = elim x.0 [
      | some y ↦ (returned (err (wrap "begin transaction" y)), x.1)
      | none ↦ let (r, s2) = fn (with_tx ctx) x.1 in finish_exit e r s2
    ] in
      r.0 ≡ panicked p → e.committed r.1 ≡ e.committed s
panics_commit_nothing e postgres ctx fn s (some y, s1) b p stays h = cc
panics_commit_nothing e postgres ctx fn s (none, s1) b p stays h =
    unwinds e postgres (fn (with_tx ctx) s1) p h ∙ stays (with_tx ctx) s1 ∙ b.0

-- The transaction was begun and the function, which commits nothing by itself, panics: then the
-- transaction is rolled back, and the panic is raised again. And whenever `Atomic` ends in a panic,
-- nothing was committed.
pub atomic_exit_panics :
    (e : Engine)
    → IsPostgres e
    → {A : Type 0} (ctx : Context) (fn : Context → e.State → Exit A × e.State) (s : e.State)
      (p : String)
    → ((c : Context) (s1 : e.State) → e.committed (fn c s1).1 ≡ e.committed s1)
    → ((e.begin s).0 ≡ none
        → (fn (with_tx ctx) (e.begin s).1).0 ≡ panicked p
        → atomic_exit e ctx fn s ≡ (panicked p, (e.rollback (fn (with_tx ctx) (e.begin s).1).1).1))
      × ((atomic_exit e ctx fn s).0 ≡ panicked p
          → e.committed (atomic_exit e ctx fn s).1 ≡ e.committed s)
unfolding atomic_exit
atomic_exit_panics e postgres ctx fn s p stays = (
  λ b h. rw (b, atomic_exit) (rw (h, finish_exit)),
  panics_commit_nothing e postgres ctx fn s (e.begin s) (postgres.begins s) p stays,
)
