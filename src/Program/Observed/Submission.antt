-- ===== src/Program/Observed/Submission.antt =====
-- The submission with its telemetry against the submission without.
use mathlib.Core.Path.{subst}
use qonto.Prelude.{ℕ, suc, String, Bool, Bytes, refl, ap, Option}
use qonto.Go.Errors.{Error}
use qonto.Go.Time.{Time}
use qonto.Go.Context.{Context}
use qonto.Model.Transfer.{BulkTransferRequest}
use qonto.Database.Engine.{Engine, Statement}
use qonto.Database.Traced.{traced_control}
use qonto.Database.Traced.Metered.{IsMetered, IsMetered-append, Grows, traced_control-Grows}
use qonto.Platform.World.{World}
use qonto.Platform.Query.{trace_query_start, record_query_metric, end_span, trace_query_end}
use qonto.Program.{submit}
use qonto.Program.Observed.{observed_body, control, observed_submit}
use qonto.Program.Observed.Simulation.{SimAt, Sim}
use qonto.Service.Interfaces.{Repository}
use qonto.Program.Observed.Calls.{repo, Sim-run_observed}
use qonto.Service.Submit.{Response, submit_body, submit_bulk_transfer}
use qonto.Service.Task.{run}
use qonto.Service.Observed.{submit_observed, run_observed}
use qonto.Service.Observed.Erase.{erase-submit_observed}
use qonto.Service.Task.Equivalence.{run-submit_task}
use qonto.Store.Laws.{repository}
use qonto.Txn.{Exit, returned}
use qonto.Txn.Laws.{atomic_exit-returned}
use qonto.Txn.Observed.Log.{IsFramed, atomic_observed-IsFramed}
use qonto.Txn.Observed.Erasure.{ActsAs, Agrees, atomic_observed-atomic_exit}

module _ (clock : ℕ → Time) (is_recording : ℕ → Bool) (sql_text : Statement → Bytes)
    (args : Statement → Option Bytes) (e : Engine) where
  abbrev observed : ℕ → Repository (World e.State)
  observed span = repo clock is_recording sql_text args span e

  Sim-submit_observed :
      (req : BulkTransferRequest) (span : ℕ) (ctx : Context)
      → Sim e
          (run_observed (observed span) span (submit_observed req ctx))
          (submit_body (repository e) req ctx)
  Sim-submit_observed req span ctx w =
      let y = run_observed (observed span) span (submit_observed req ctx) w in
      subst (SimAt e w y) (run-submit_task (repository e) req ctx w.state) (
        subst (λ t. SimAt e w y (run (repository e) t w.state)) (erase-submit_observed req ctx)
          (Sim-run_observed clock is_recording sql_text args span e (submit_observed req ctx) w))

  -- What `Atomic` is given of pgx: begin, commit and rollback with its own context and span.
  abbrev begin : Context → ℕ → World e.State → Option Error × World e.State
  begin ctx span = control clock is_recording sql_text args e ctx span "begin" e.begin

  abbrev commit : Context → ℕ → World e.State → Option Error × World e.State
  commit ctx span = control clock is_recording sql_text args e ctx span "commit" e.commit

  abbrev rollback : Context → ℕ → World e.State → Option Error × World e.State
  rollback ctx span = control clock is_recording sql_text args e ctx span "rollback" e.rollback

  abbrev body : BulkTransferRequest → ℕ → Context → World e.State → Exit Response × World e.State
  body = observed_body clock is_recording sql_text args e

  acts_control :
      (ctx : Context) (span : ℕ) (sql : String) (f : e.State → Option Error × e.State)
      → ActsAs e (control clock is_recording sql_text args e ctx span sql f) f
  unfolding traced_control trace_query_start trace_query_end record_query_metric end_span
  acts_control ctx span sql f w = (refl, refl)

  control-Grows :
      (ctx : Context) (span : ℕ) (sql : String) (f : e.State → Option Error × e.State)
      (w : World e.State)
      → Grows w.emitted (control clock is_recording sql_text args e ctx span sql f w).1.emitted
  control-Grows ctx span sql f w =
      traced_control-Grows clock is_recording sql_text args ctx span e sql f w

  -- With all its telemetry a submission answers, and leaves the database, as without it, and its
  -- telemetry is one span with what `Atomic` and the statements emit.
  pub observed_submit-Agrees :
      (parent : ℕ) (ctx : Context) (req : BulkTransferRequest) (w : World e.State)
      → let x = observed_submit clock is_recording sql_text args e parent ctx req w in
        Agrees e x (let (r, s) = submit e ctx req w.state in (returned r, s))
        × IsFramed IsMetered parent w x
  unfolding observed_submit submit_bulk_transfer
  observed_submit-Agrees parent ctx req w =
      let span = suc w.spans in
      (
        subst (Agrees e (observed_submit clock is_recording sql_text args e parent ctx req w))
            (atomic_exit-returned e ctx (submit_body (repository e) req) w.state)
            (atomic_observed-atomic_exit e (commit ctx span) (rollback ctx span)
              (acts_control ctx span "commit" e.commit)
              (acts_control ctx span "rollback" e.rollback) clock (begin ctx span) (body req)
              (λ c s. let (r, s') = submit_body (repository e) req c s in (returned r, s'))
              (λ n c v.
                let (same, left, more) = Sim-submit_observed req n c v in (ap returned same, left))
              (acts_control ctx span "begin" e.begin) parent ctx w),
        atomic_observed-IsFramed IsMetered IsMetered-append clock (begin ctx span) (commit ctx span)
            (rollback ctx span) (control-Grows ctx span "begin" e.begin)
            (control-Grows ctx span "commit" e.commit)
            (control-Grows ctx span "rollback" e.rollback) (body req)
            (λ n c v. let (same, left, more) = Sim-submit_observed req n c v in more.0) parent ctx
            w,
      )
