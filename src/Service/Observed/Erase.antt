-- ===== src/Service/Observed/Erase.antt =====
-- Without its marks, the submission is the task of Service/Task.
use mathlib.Core.Path.{fun_ext}
use qonto.Prelude.{◌≡◌, refl, ap, Option, none, some, Bool-cases, inl, inr}
use qonto.Prelude.Int.{ℤ, pos, ltb_ℤ, leb_ℤ}
use qonto.Go.Context.{Context, with_phase}
use qonto.Model.Transfer.{Account, BulkTransferRequest, total_cents}
use qonto.Service.Task.{
  Task, take_lock, read_status, read_account, write_batch, write_transactions, write_debit,
  debited_task, persist_task, resolved_task, checked_task, submit_task,
}
use qonto.Service.Observed.{
  Observed, done, stop, mark, call, debited_observed, persist_observed, resolved_observed,
  checked_observed, submit_observed,
}

unfoldable pub erase : {A : Type 0} → Observed A → Task A
erase (done a) = Task.done a
erase (stop e) = Task.stop e
erase (mark m t) = erase t
erase (call c k) = Task.call c (λ a. erase (k a))

module _ (req : BulkTransferRequest) where
  erase-debited :
      (ctx : Context) (left : ℤ) → erase (debited_observed ctx req left) ≡ debited_task ctx req left
  unfolding erase
  erase-debited ctx left = elim (Bool-cases (leb_ℤ (pos 0) left)) [
    | inl fine ↦ rw fine refl
    | inr broken ↦ rw broken refl
  ]

  erase-persist :
      (ctx : Context) (account : Account)
      → erase (persist_observed ctx req account) ≡ persist_task ctx req account
  unfolding erase
  erase-persist ctx account =
      ap (Task.call (write_batch ctx account.id req.idempotency_key (total_cents req))) (
        fun_ext (λ batch.
          ap (Task.call (write_transactions ctx account.id batch req.credit_transfers)) (
            fun_ext (λ _.
              ap (Task.call (write_debit ctx account.id (total_cents req)))
                (fun_ext (erase-debited ctx))))))

  erase-resolved :
      (ctx : Context) (found : Option Account)
      → erase (resolved_observed ctx req found) ≡ resolved_task ctx req found
  unfolding erase
  erase-resolved ctx none = refl
  erase-resolved ctx (some account) =
      elim (Bool-cases (ltb_ℤ account.balance_cents (total_cents req))) [
        | inl short ↦ rw short refl
        | inr enough ↦ rw enough (erase-persist (with_phase ctx "persist_batch") account)
      ]

  erase-checked :
      (ctx : Context) (status : Option ℤ)
      → erase (checked_observed ctx req status) ≡ checked_task ctx req status
  unfolding erase
  erase-checked ctx (some status) = refl
  erase-checked ctx none =
      let resolving = with_phase ctx "resolve_account" in
      ap (Task.call (read_account resolving req.organization_iban req.organization_bic))
        (fun_ext (erase-resolved resolving))

  pub erase-submit_observed :
      (ctx : Context) → erase (submit_observed req ctx) ≡ submit_task req ctx
  unfolding erase
  erase-submit_observed ctx =
      let checking = with_phase ctx "check_idempotency" in
      ap (Task.call (take_lock checking req.idempotency_key)) (
        fun_ext (λ _.
          ap (Task.call (read_status checking req.idempotency_key))
            (fun_ext (erase-checked checking))))
