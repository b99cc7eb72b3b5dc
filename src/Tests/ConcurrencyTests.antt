-- ===== src/Tests/ConcurrencyTests.antt =====
-- Three sessions side by side, two of them with the same key.
use text.Mathlib.Text.{◌==◌}
use native.Mathlib.Decide.{ℕ_discrete}
use qonto.Prelude.{
  ℕ, zero, suc, String, ◌≡◌, ◌≢◌, refl, ap, ◌∙◌, true, none, List, [], ◌∷◌, arith, if◌then◌else◌,
}
use qonto.Prelude.Int.{ℤ, pos, ◌+ℤ◌, ◌-ℤ◌}
use mathlib.Core.Logic.{if_neg}
use qonto.Go.Int64.{add64, wrap64}
use qonto.Model.Transfer.{BulkTransferRequest, total_cents, sum_from}
use qonto.Database.Schema.{Tables, TransactionRow, status_of, posting_of}
use qonto.Service.Submit.{respond, submit_body}
use qonto.Service.Outcome.{accepted}
use qonto.Service.Once.{Reached}
use qonto.Concurrency.Session.{
  Stage, opening, locked, fresh, replying, posted, settling_created, located, debited, answered,
  created_response, holds_key, held_row, take_key, read_status, read_none, find_account,
  batch_written, transactions_written, account_debited, record_created, commit_replay,
  commit_created,
}
use qonto.Concurrency.System.{
  System, assign, lock_of, KeyFree, RowFree, move, commit, Interleaved, all_opening, and_then,
}
use qonto.Concurrency.Calls.{task_at, Continues, Move-Continues}
use qonto.Concurrency.Serial.{sessions_serial, sessions_same_answer, sessions_no_duplicate}
use qonto.Concurrency.Progress.{Proceeds, row_holder_goes_on}
use qonto.Service.Task.{submit_task, run}
use qonto.Service.Task.Equivalence.{run-submit_task}
use qonto.Store.Laws.{repository}
use qonto.Program.Memory.{memory}
use qonto.Tests.Sample.{
  ready, acme, affordable, unaffordable, opened, no_context, transfer_of_cents,
}

abbrev requests : ℕ → BulkTransferRequest
requests zero = affordable
requests (suc zero) = unaffordable
requests (suc (suc _)) = affordable

abbrev hashtext : String → ℤ
hashtext k = if k == "k1" then pos 1 else pos 2

abbrev rows : List TransactionRow
rows =
    record {
      id = pos 1;
      created_at = pos 0;
      posting = posting_of (pos 1) (pos 1) (transfer_of_cents 1450);
    }
    ∷ record {
      id = pos 2;
      created_at = pos 0;
      posting = posting_of (pos 1) (pos 1) (transfer_of_cents 6123800);
    }
    ∷ []

-- No other session has begun.
abbrev Idle : (ℕ → Stage) → Type 0
Idle f = (j : ℕ) → f (suc (suc j)) ≡ opening

assign_first : (f : ℕ → Stage) (p : Stage) → Idle f → Idle (assign f 0 p)
assign_first f p h j =
    if_neg (ℕ_discrete 0 (suc (suc j))) (λ e. omega arith) p (f (suc (suc j))) ∙ h j

assign_second : (f : ℕ → Stage) (p : Stage) → Idle f → Idle (assign f 1 p)
assign_second f p h j =
    if_neg (ℕ_discrete 1 (suc (suc j))) (λ e. omega arith) p (f (suc (suc j))) ∙ h j

-- The second session has its lock; the stages of the first, the last one in front.
abbrev stages : List Stage → ℕ → Stage
stages [] = assign (λ _. opening) 1 locked
stages (p ∷ ps) = assign (stages ps) 0 p

idle : (ps : List Stage) → Idle (stages ps)
idle [] = assign_second (λ _. opening) locked (λ j. refl)
idle (p ∷ ps) = assign_first (stages ps) p (idle ps)

abbrev debiting : List Stage
debiting =
    debited acme (pos 1) rows
    ∷ posted acme (pos 1) rows
    ∷ Stage.inserted acme (pos 1)
    ∷ located acme
    ∷ fresh
    ∷ locked
    ∷ []

abbrev at_debited : System
at_debited = record { tables = opened; stage = stages debiting }

abbrev paying : List Stage
paying = answered created_response ∷ settling_created acme (pos 1) rows ∷ debiting

-- The first session has debited the account; the second holds its own key.
first_steps : Interleaved hashtext requests opened at_debited
unfolding ℕ_discrete total_cents sum_from add64 wrap64 ◌+ℤ◌ ◌-ℤ◌
first_steps =
    and_then
      (and_then
        (and_then
          (and_then
            (and_then
              (and_then (and_then all_opening (move 1 (take_key (λ j ne h. cc))))
                (move 0 (take_key free)))
              (move 0 (read_none refl)))
            (move 0 (find_account refl unlocked)))
          (move 0 (batch_written {a = acme} (pos 1) refl (omega arith))))
        (move 0 (transactions_written rows refl)))
      (move 0 (account_debited {balance = pos 10000000} refl refl))
  where
    free :
        (j : ℕ)
        → 0 ≢ j
        → holds_key (stages [] j) ≡ true
        → lock_of hashtext requests 0 ≢ lock_of hashtext requests j
    free zero ne h = elim (ne refl) [ ]
    free (suc zero) ne h = λ e. cc
    free (suc (suc j)) ne h = cc (h, ap holds_key (idle [] j))

    unlocked : RowFree hashtext requests (stages (fresh ∷ locked ∷ [])) 0 (pos 1)
    unlocked zero ne a h = cc
    unlocked (suc zero) ne a h = cc
    unlocked (suc (suc j)) ne a h = cc (h, ap held_row (idle (fresh ∷ locked ∷ []) j))

abbrev settled : Tables
settled = accepted affordable acme (pos 1) rows opened

abbrev answering : ℕ → Stage
answering =
    assign (assign (assign (stages paying) 2 locked) 2 (replying (pos 204))) 2
      (answered (respond (pos 204)))

abbrev at_end : System
at_end = record { tables = settled; stage = answering }

-- Then it commits, and the third session, with the same key, is answered; the second waits.
last_steps : Interleaved hashtext requests opened at_end
unfolding ℕ_discrete total_cents sum_from add64 wrap64 ◌+ℤ◌ ◌-ℤ◌
last_steps =
    and_then
      (and_then
        (and_then
          (and_then (and_then first_steps (move 0 (record_created refl)))
            (commit 0 (commit_created {a = acme} {batch_id = pos 1} {rows = rows})))
          (move 2 (take_key free)))
        (move 2 (read_status {status = pos 204} refl)))
      (commit 2 (commit_replay {status = pos 204}))
  where
    free : KeyFree hashtext requests (stages paying) 2
    free zero ne h = cc
    free (suc zero) ne h = λ e. cc
    free (suc (suc j)) ne h = cc (h, ap holds_key (idle paying j))

sessions_serial_example : Reached opened settled
sessions_serial_example = sessions_serial hashtext requests (refl, tt) last_steps

sessions_same_answer_example : created_response ≡ respond (pos 204)
unfolding ℕ_discrete total_cents sum_from add64 wrap64 ◌+ℤ◌ ◌-ℤ◌
sessions_same_answer_example =
    sessions_same_answer hashtext requests (refl, tt) last_steps 0 2 refl refl refl

sessions_no_duplicate_example : status_of "k1" opened.keys ≡ none
unfolding ℕ_discrete total_cents sum_from add64 wrap64 ◌+ℤ◌ ◌-ℤ◌
sessions_no_duplicate_example =
    sessions_no_duplicate hashtext requests (refl, tt) first_steps 0 refl

row_holder_goes_on_example :
    Proceeds
      (KeyFree hashtext requests (stages debiting) 0)
      (RowFree hashtext requests (stages debiting) 0)
      opened
      affordable
      (debited acme (pos 1) rows)
unfolding ℕ_discrete total_cents sum_from add64 wrap64 ◌+ℤ◌ ◌-ℤ◌
row_holder_goes_on_example =
    row_holder_goes_on hashtext requests (refl, tt) first_steps 0 acme (omega arith) refl

Move-Continues_example :
    Continues
      (task_at no_context affordable (located acme))
      (task_at no_context affordable (Stage.inserted acme (pos 1)))
unfolding total_cents sum_from add64 wrap64 ◌+ℤ◌
Move-Continues_example =
    Move-Continues no_context {key_free = Unit} {row_free = λ _. Unit} {t = opened}
      {req = affordable} (batch_written {a = acme} (pos 1) refl (omega arith))

run-submit_task_run :
    run (repository memory) (submit_task affordable no_context) ready
    ≡ submit_body (repository memory) affordable no_context ready
run-submit_task_run = run-submit_task (repository memory) affordable no_context ready
