-- ===== src/Service/Observed.antt =====
-- `SubmitBulkTransfer` with the outcomes that it records on its span, and the tripwire's counter.
pub mod Erase
use qonto.Prelude.{ℕ, String, Option, none, some, List, [], ◌∷◌, ◌++◌, codes, if◌then◌else◌}
use qonto.Prelude.Int.{ℤ, pos, ltb_ℤ, leb_ℤ}
use qonto.Go.Errors.{Error, other}
use qonto.Go.Action.{Action, pure, fail, ◌>>=◌}
use qonto.Go.Context.{Context, with_phase}
use qonto.Model.Transfer.{Account, BulkTransferRequest, total_cents}
use qonto.Platform.Instruments.{Attribute, text, int, balance_invariant_violations}
use qonto.Platform.World.{Emission, added, span_ok, span_failed, World}
use qonto.Service.Interfaces.{Repository}
use qonto.Service.Submit.{
  Response, respond, status_created, status_account_not_found, status_insufficient_funds,
}
use qonto.Service.Task.{
  Call, take_lock, read_status, read_account, write_batch, write_transactions, write_debit,
  write_key, Answer, perform,
}

-- `RecordOutcome` with the status code, or what `checkBalanceInvariant` records.
pub data Mark : Type 0 where
  outcome : String → ℤ → Mark
  violation : Error → Mark

unfoldable pub emissions_of : ℕ → Mark → List Emission
emissions_of span (outcome name status) =
    span_ok span (text "outcome" (codes name) ∷ int "http.status_code" status ∷ []) ∷ []
emissions_of span (violation e) =
    added balance_invariant_violations (pos 1) [] ∷ span_failed span e ∷ []

-- A task (Service/Task) with marks.
pub data Observed (A : Type 0) : Type 0 where
  done : A → Observed A
  stop : Error → Observed A
  mark : Mark → Observed A → Observed A
  call : (c : Call) → (Answer c → Observed A) → Observed A

abbrev pub recorded_observed : String → Context → BulkTransferRequest → Response → Observed Response
recorded_observed name ctx req r =
    mark (outcome name r.status_code)
      (call (write_key ctx req.idempotency_key r.status_code) (λ _. done r))

abbrev pub debited_observed : Context → BulkTransferRequest → ℤ → Observed Response
debited_observed ctx req new_balance =
    if leb_ℤ (pos 0) new_balance
    then recorded_observed "created" ctx req (record { status_code = status_created; body = none })
    else mark (violation (other "balance invariant violated"))
        (stop (other "balance invariant violated"))

abbrev pub posted_observed : Context → BulkTransferRequest → Account → Observed Response
posted_observed ctx req account =
    call (write_debit ctx account.id (total_cents req)) (debited_observed ctx req)

abbrev pub inserted_observed : Context → BulkTransferRequest → Account → ℤ → Observed Response
inserted_observed ctx req account batch_id =
    call (write_transactions ctx account.id batch_id req.credit_transfers)
      (λ _. posted_observed ctx req account)

abbrev pub persist_observed : Context → BulkTransferRequest → Account → Observed Response
persist_observed ctx req account =
    call (write_batch ctx account.id req.idempotency_key (total_cents req))
      (inserted_observed ctx req account)

abbrev pub resolved_observed : Context → BulkTransferRequest → Option Account → Observed Response
resolved_observed ctx req none =
    recorded_observed "account_not_found" ctx req (respond status_account_not_found)
resolved_observed ctx req (some account) =
    if ltb_ℤ account.balance_cents (total_cents req)
    then recorded_observed "insufficient_funds" ctx req (respond status_insufficient_funds)
    else persist_observed (with_phase ctx "persist_batch") req account

abbrev pub checked_observed : Context → BulkTransferRequest → Option ℤ → Observed Response
checked_observed ctx req (some status) = mark (outcome "replayed" status) (done (respond status))
checked_observed ctx req none =
    let resolving = with_phase ctx "resolve_account" in
    call (read_account resolving req.organization_iban req.organization_bic)
      (resolved_observed resolving req)

abbrev pub submit_observed : BulkTransferRequest → Context → Observed Response
submit_observed req ctx =
    let checking = with_phase ctx "check_idempotency" in
    call (take_lock checking req.idempotency_key)
      (λ _. call (read_status checking req.idempotency_key) (checked_observed checking req))

-- A task with marks, under the span of its context.
module _ {S : Type 0} (repo : Repository (World S)) (span : ℕ) where
  abbrev pub run_observed : {A : Type 0} → Observed A → Action (World S) A
  run_observed (done a) w = pure a w
  run_observed (stop e) w = fail e w
  run_observed (mark m t) w =
      run_observed t (record w { emitted = w.emitted ++ emissions_of span m })
  run_observed (call c k) w = (perform repo c >>= (λ a. run_observed (k a))) w
