-- ===== src/Database/Traced.antt =====
-- The engine of pgx with the tracer that `NewPool` of pkg/database/pool.go gives it.
pub mod Laws
pub mod Metered
pub mod Sent
use qonto.Prelude.{ℕ, String, Bool, Bytes, codes, ◌≡◌, Option, none, some, List, [], ◌∷◌}
use qonto.Go.Errors.{Error}
use qonto.Go.Time.{Time}
use qonto.Go.Context.{Context}
use qonto.Database.Schema.{Tables}
use qonto.Database.Engine.{Engine, Value, Statement, copy_from, Reply, Target}
use qonto.Database.Laws.{AnswersAt, Answers, BeginsAt, CommitsAt, IsPostgres}
use qonto.Platform.World.{World}
use qonto.Platform.Query.{
  Traced, trace_query_start, trace_copy_from_start, trace_query_end, trace_copy_from_end,
}

-- The error that the end of a statement is told.
abbrev pub error_of_reply : Reply → Option Error
error_of_reply (Reply.failed x) = some x
error_of_reply (Reply.broken _ x) = some x
error_of_reply (Reply.rows _) = none

-- `sql_text` and `args` are what squirrel makes of a statement. `ctx` and its span are the context
-- that the caller passes to pgx, which passes it to the tracer; begin, commit and rollback are sent
-- as statements of their own.
module _ (clock : ℕ → Time) (is_recording : ℕ → Bool) (sql_text : Statement → Bytes)
    (args : Statement → Option Bytes) (ctx : Context) (span : ℕ) (e : Engine) where
  abbrev start_of : Target → Statement → World e.State → Traced × World e.State
  start_of target (copy_from table columns vs) w =
      trace_copy_from_start clock is_recording ctx span table w
  start_of target q w = trace_query_start clock is_recording ctx span (sql_text q) (args q) w

  abbrev end_of : Statement → Traced → Option Error → World e.State → World e.State
  end_of (copy_from _ _ _) t x w = trace_copy_from_end clock is_recording t x w
  end_of _ t x w = trace_query_end clock is_recording t x w

  unfoldable pub traced_run : Target → Statement → World e.State → Reply × World e.State
  unfolding trace_query_start trace_copy_from_start trace_query_end trace_copy_from_end
  traced_run target q w =
      let (t, w1) = start_of target q w in
      let (r, s) = e.run target q w1.state in
      (r, end_of q t (error_of_reply r) (record w1 { state = s }))

  -- A statement without arguments, whose reply is an error or nil.
  unfoldable pub traced_control :
      String → (e.State → Option Error × e.State) → World e.State → Option Error × World e.State
  unfolding trace_query_start trace_query_end
  traced_control sql f w =
      let (t, w1) = trace_query_start clock is_recording ctx span (codes sql) none w in
      let (x, s) = f w1.state in
      (x, trace_query_end clock is_recording t x (record w1 { state = s }))

  abbrev pub traced : Engine
  traced = record {
    State = World e.State;
    committed = λ w. e.committed w.state;
    current = λ w. e.current w.state;
    aborted = λ w. e.aborted w.state;
    next_batch_id = λ w. e.next_batch_id w.state;
    stamp = λ w. e.stamp w.state;
    to_sql = e.to_sql;
    begin = traced_control "begin" e.begin;
    commit = traced_control "commit" e.commit;
    rollback = traced_control "rollback" e.rollback;
    run = traced_run;
  }
