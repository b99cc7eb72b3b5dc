-- ===== src/Service/Task/Equivalence.antt =====
-- The calls of `submit_task` are those of `SubmitBulkTransfer`.
use qonto.Prelude.{◌≡◌, refl, Bool-cases, inl, inr, Option, none, some}
use qonto.Prelude.Int.{ℤ, pos, ltb_ℤ, leb_ℤ}
use qonto.Go.Errors.{Result, ok, err}
use qonto.Go.Action.{Action, ◌>>=◌, ◌>>◌}
use qonto.Go.Context.{Context, with_phase}
use qonto.Model.Transfer.{Account, BulkTransferRequest, total_cents}
use qonto.Service.Interfaces.{Repository}
use qonto.Service.Submit.{
  recorded, check_balance_invariant, debit_batch, post_batch, persist_batch, with_account, evaluate,
  submit_body,
}
use qonto.Service.Task.{
  debited_task, posted_task, persist_task, resolved_task, checked_task, submit_task, run,
}

-- Two actions that go on alike.
bind-ext :
    {S A B : Type 0} (m : Action S A) (f g : A → Action S B)
    → ((a : A) (s : S) → f a s ≡ g a s)
    → (s : S) → (m >>= f) s ≡ (m >>= g) s
bind-ext {S} {A} {B} m f g h s = on (m s)
  where
    on : (x : Result A × S) → ((λ (_ : S). x) >>= f) s ≡ ((λ (_ : S). x) >>= g) s
    on (ok a, s') = h a s'
    on (err e, s') = refl

module _ {S : Type 0} (repo : Repository S) (req : BulkTransferRequest) where
  run-debited_task :
      (ctx : Context) (account_id left : ℤ) (s : S)
      → run repo (debited_task ctx req left) s
        ≡ (check_balance_invariant account_id left
              >> recorded repo ctx req (record { status_code = pos 204; body = none }))
            s
  unfolding check_balance_invariant
  run-debited_task ctx account_id left s = elim (Bool-cases (leb_ℤ (pos 0) left)) [
    | inl fine ↦ rw fine refl
    | inr broken ↦ rw broken refl
  ]

  run-posted_task :
      (ctx : Context) (account : Account) (s : S)
      → run repo (posted_task ctx req account) s
        ≡ debit_batch repo ctx req account (total_cents req) s
  unfolding debit_batch
  run-posted_task ctx account =
      bind-ext (repo.debit_account ctx account.id (total_cents req)) _ _
        (run-debited_task ctx account.id)

  run-persist_task :
      (ctx : Context) (account : Account) (s : S)
      → run repo (persist_task ctx req account) s
        ≡ persist_batch repo ctx req account (total_cents req) s
  unfolding persist_batch post_batch
  run-persist_task ctx account =
      bind-ext (repo.insert_batch ctx account.id req.idempotency_key (total_cents req)) _ _
        (λ batch_id.
          bind-ext (repo.insert_transactions ctx account.id batch_id req.credit_transfers) _ _
            (λ _. run-posted_task ctx account))

  run-resolved_task :
      (ctx : Context) (found : Option Account) (s : S)
      → run repo (resolved_task ctx req found) s ≡ with_account repo ctx req found s
  unfolding with_account
  run-resolved_task ctx none s = refl
  run-resolved_task ctx (some account) s =
      elim (Bool-cases (ltb_ℤ account.balance_cents (total_cents req))) [
        | inl short ↦ rw short refl
        | inr enough ↦ rw enough (run-persist_task (with_phase ctx "persist_batch") account s)
      ]

  run-checked_task :
      (ctx : Context) (status : Option ℤ) (s : S)
      → run repo (checked_task ctx req status) s ≡ evaluate repo ctx req status s
  unfolding evaluate
  run-checked_task ctx (some status) s = refl
  run-checked_task ctx none s =
      bind-ext
        (repo.find_account_for_update (with_phase ctx "resolve_account") req.organization_iban
          req.organization_bic)
        _ _ (run-resolved_task (with_phase ctx "resolve_account")) s

  -- On every repository, state and context, the transaction's function does what running its calls
  -- one by one does.
  pub run-submit_task :
      (ctx : Context) (s : S) → run repo (submit_task req ctx) s ≡ submit_body repo req ctx s
  unfolding submit_body
  run-submit_task ctx =
      let checking = with_phase ctx "check_idempotency" in
      bind-ext (repo.advisory_lock checking req.idempotency_key) _ _ (λ _.
        bind-ext (repo.find_idempotency_record_status checking req.idempotency_key) _ _
          (run-checked_task checking))
