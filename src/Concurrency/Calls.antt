-- ===== src/Concurrency/Calls.antt =====
-- The stages of a session are the calls of `SubmitBulkTransfer`.
use qonto.Prelude.{◌≡◌, refl, true, none, some}
use mathlib.Core.Path.{subst}
use qonto.Prelude.Int.{ℤ, pos, ◌-ℤ◌, leb_ℤ}
use qonto.Go.Errors.{other}
use qonto.Go.Context.{Context, with_phase}
use qonto.Model.Transfer.{BulkTransferRequest, total_cents}
use qonto.Database.Schema.{Tables}
use qonto.Service.Submit.{Response, respond, status_account_not_found, status_insufficient_funds}
use qonto.Service.Task.{
  Task, Call, Answer, done, stop, call, submit_task, locked_task, checked_task, resolved_task,
  inserted_task, posted_task, debited_task, recorded_task,
}
use qonto.Concurrency.Session.{
  Stage, opening, locked, replying, fresh, missing, located, inserted, posted, debited,
  settling_missing, settling_short, settling_created, answered, ended, created_response, Move,
  take_key, read_status, read_none, find_none, find_account, record_missing, record_short,
  batch_written, transactions_written, account_debited, record_created, Commit, commit_replay,
  commit_missing, commit_short, commit_created,
}

-- What the code has still to do at a stage.
abbrev pub task_at : Context → BulkTransferRequest → Stage → Task Response
task_at ctx req opening = submit_task req ctx
task_at ctx req locked = locked_task (with_phase ctx "check_idempotency") req
task_at ctx req (replying status) = done (respond status)
task_at ctx req fresh = checked_task (with_phase ctx "check_idempotency") req none
task_at ctx req missing =
    resolved_task (with_phase (with_phase ctx "check_idempotency") "resolve_account") req none
task_at ctx req (located a) =
    resolved_task (with_phase (with_phase ctx "check_idempotency") "resolve_account") req (some a)
task_at ctx req (inserted a batch_id) =
    inserted_task
      (with_phase (with_phase (with_phase ctx "check_idempotency") "resolve_account")
        "persist_batch")
      req a batch_id
task_at ctx req (posted a _ _) =
    posted_task
      (with_phase (with_phase (with_phase ctx "check_idempotency") "resolve_account")
        "persist_batch")
      req a
task_at ctx req (debited _ _ _) =
    recorded_task
      (with_phase (with_phase (with_phase ctx "check_idempotency") "resolve_account")
        "persist_batch")
      req created_response
task_at ctx req settling_missing = done (respond status_account_not_found)
task_at ctx req (settling_short _) = done (respond status_insufficient_funds)
task_at ctx req (settling_created _ _ _) = done created_response
task_at ctx req (answered r) = done r
task_at ctx req ended = stop (other "rolled back")

-- The second task is what is left of the first after an answer to its call.
pub data Continues : Task Response → Task Response → Type 0 where
  with_answer :
      (c : Call) (k : Answer c → Task Response) (a : Answer c) → Continues (call c k) (k a)

debited_task-solvent :
    (ctx : Context) (req : BulkTransferRequest) (left : ℤ)
    → leb_ℤ (pos 0) left ≡ true
    → debited_task ctx req left ≡ recorded_task ctx req created_response
debited_task-solvent ctx req left h = rw h refl

module _ (ctx : Context) {key_free : Type 0} {row_free : ℤ → Type 0} {t : Tables}
    {req : BulkTransferRequest} where
  -- Every move of a session answers the next call of the code, and leads to what the code does with
  -- that answer.
  pub Move-Continues :
      {p q : Stage}
      → Move key_free row_free t req p q
      → Continues (task_at ctx req p) (task_at ctx req q)
  Move-Continues (take_key _) = with_answer _ _ tt
  Move-Continues (read_status {status} _) = with_answer _ _ (some status)
  Move-Continues (read_none _) = with_answer _ _ none
  Move-Continues (find_none _) = with_answer _ _ none
  Move-Continues (find_account {a} _ _) = with_answer _ _ (some a)
  Move-Continues (record_missing _) = with_answer _ _ tt
  Move-Continues (record_short short _) = rw short (with_answer _ _ tt)
  Move-Continues (batch_written batch_id enough _) = rw enough (with_answer _ _ batch_id)
  Move-Continues (transactions_written _ _) = with_answer _ _ tt
  Move-Continues (account_debited {a} {batch_id} {balance} {rows} _ left) =
      subst (Continues (task_at ctx req (posted a batch_id rows)))
        (debited_task-solvent _ req (balance -ℤ total_cents req) left)
        (with_answer _ _ (balance -ℤ total_cents req))
  Move-Continues (record_created _) = with_answer _ _ tt

-- A session commits where the code has returned, and answers what it returned.
pub Commit-done :
    (ctx : Context) {t : Tables} {req : BulkTransferRequest} {p : Stage} {r : Response}
    {t' : Tables}
    → Commit t req p r t'
    → task_at ctx req p ≡ done r
Commit-done ctx commit_replay = refl
Commit-done ctx commit_missing = refl
Commit-done ctx commit_short = refl
Commit-done ctx commit_created = refl
