-- ===== src/Database/Traced/Laws.antt =====
-- That the tracer does not get in the way of a statement.
use mathlib.Core.Path.{subst}
use qonto.Prelude.{refl, sym, ℕ, Bool, Bytes, ◌≡◌, Option, none, some, List}
use qonto.Go.Errors.{Error}
use qonto.Go.Time.{Time}
use qonto.Go.Context.{Context}
use qonto.Database.Schema.{Tables}
use qonto.Database.Engine.{Engine, Value, Statement, Reply, Target}
use qonto.Database.Laws.{AnswersAt, Answers, BeginsAt, CommitsAt, IsPostgres}
use qonto.Platform.World.{World}
use qonto.Database.Traced.{traced_run, traced_control, traced}

module _ (clock : ℕ → Time) (is_recording : ℕ → Bool) (sql_text : Statement → Bytes)
    (args : Statement → Option Bytes) (ctx : Context) (span : ℕ) (e : Engine) where
  abbrev observed : Engine
  observed = traced clock is_recording sql_text args ctx span e

  -- `w'` is what the end of the statement makes of the state that the engine left.
  answered :
      (w : World e.State) (P : List (List Value) → Tables → Type 0) (x : Reply × e.State)
      (w' : World e.State)
      → w'.state ≡ x.1
      → AnswersAt e w.state P x
      → Answers observed w P (x.0, w')
  answered w P (Reply.failed y, s') w' same h = record {
    holds = subst (λ t. AnswersAt e w.state P (Reply.failed y, t)) (sym same) h;
  }
  answered w P (Reply.broken rs y, s') w' same h = record {
    holds = subst (λ t. AnswersAt e w.state P (Reply.broken rs y, t)) (sym same) h;
  }
  answered w P (Reply.rows rs, s') w' same h = record {
    holds = subst (λ t. AnswersAt e w.state P (Reply.rows rs, t)) (sym same) h;
  }

  ran :
      (w : World e.State) (P : List (List Value) → Tables → Type 0) (target : Target)
      (q : Statement)
      → ((observed.run target q w).1.state ≡ (e.run target q w.state).1)
      → ((observed.run target q w).0 ≡ (e.run target q w.state).0)
      → Answers e w.state P (e.run target q w.state)
      → Answers observed w P (observed.run target q w)
  ran w P target q state reply h =
      subst (λ r. Answers observed w P (r, (observed.run target q w).1)) (sym reply)
        (answered w P (e.run target q w.state) (observed.run target q w).1 state h.holds)

  begun :
      (w : World e.State) (x : Option Error × e.State) (w' : World e.State)
      → w'.state ≡ x.1
      → BeginsAt e w.state x
      → BeginsAt observed w (x.0, w')
  begun w (none, s') w' same h = subst (λ t. BeginsAt e w.state (none, t)) (sym same) h
  begun w (some y, s') w' same h = subst (λ t. BeginsAt e w.state (some y, t)) (sym same) h

  committed :
      (w : World e.State) (x : Option Error × e.State) (w' : World e.State)
      → w'.state ≡ x.1
      → CommitsAt e w.state x
      → CommitsAt observed w (x.0, w')
  committed w (none, s') w' same h = subst (λ t. CommitsAt e w.state (none, t)) (sym same) h
  committed w (some y, s') w' same h = subst (λ t. CommitsAt e w.state (some y, t)) (sym same) h

  -- Under the tracer, an engine keeps PostgreSQL's documented behaviour, whatever the clock, the
  -- sampling and the contexts of the callers.
  pub traced-IsPostgres : IsPostgres e → IsPostgres observed
  unfolding traced_run traced_control
  traced-IsPostgres p = record {
    begins = λ w. begun w (e.begin w.state) (observed.begin w).1 refl (p.begins w.state);
    commits = λ w. committed w (e.commit w.state) (observed.commit w).1 refl (p.commits w.state);
    rolls_back = λ w. p.rolls_back w.state;
    keyed = λ w. p.keyed w.state;
    locks = λ k w. ran w _ _ _ refl refl (p.locks k w.state);
    selects_status = λ k w. ran w _ _ _ refl refl (p.selects_status k w.state);
    inserts_key = λ k status w. ran w _ _ _ refl refl (p.inserts_key k status w.state);
    selects_account = λ iban bic w. ran w _ _ _ refl refl (p.selects_account iban bic w.state);
    updates_balance = λ id amount w. ran w _ _ _ refl refl (p.updates_balance id amount w.state);
    inserts_batch = λ id k total w. ran w _ _ _ refl refl (p.inserts_batch id k total w.state);
    copies = λ ps vss w same. ran w _ _ _ refl refl (p.copies ps vss w.state same);
    stamps = λ w ps. p.stamps w.state ps;
  }
