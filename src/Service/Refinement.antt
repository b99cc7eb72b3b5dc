-- ===== src/Service/Refinement.antt =====
-- `SubmitBulkTransfer` implements the specification.
use mathlib.Core.Path.{subst}
use qonto.Prelude.{
  String, ◌≡◌, refl, sym, ap, ◌∙◌, inl, inr, true, false, Bool-cases, Option, none, some, List, [],
  ◌∷◌, arith,
}
use qonto.Prelude.Int.{ℤ, pos, ◌-ℤ◌, ltb_ℤ, leb_ℤ, eq_of_parts, -ℤ_parts}
use qonto.Go.Action.{◌>>◌, ◌>>=◌}
use qonto.Go.Context.{Context, with_phase, with_tx}
use qonto.Model.Transfer.{Account, BulkTransferRequest, total_cents}
use qonto.Database.Schema.{
  Tables, TransactionRow, status_of, account_of, balance_of, IsKeyed, add_key, add_batch,
  add_transactions, debit_in,
}
use qonto.Service.Interfaces.{Repository, Transactor}
use qonto.Service.Submit.{
  Response, respond, recorded, check_balance_invariant, debit_batch, post_batch, persist_batch,
  status_created, status_account_not_found, status_insufficient_funds, with_account, evaluate,
  submit_body, submit_bulk_transfer,
}
use qonto.Service.Contract.{View, May, Settled, RepositoryLaws, TransactorLaws}
use qonto.Service.Contract.Rules.{May-pure, May-finally, Does-bind}
use qonto.Service.Outcome.{Submitted, replayed, not_found, insufficient, created}

-- The account that is found by IBAN and BIC is the one that its id names.
pub balance_of-account_of :
    (iban bic : String) (as_ : List Account) {a : Account}
    → IsKeyed as_
    → account_of iban bic as_ ≡ some a
    → balance_of a.id as_ ≡ some a.balance_cents
balance_of-account_of iban bic [] h e = cc
balance_of-account_of iban bic (x ∷ as_) {a} h e =
    ground (arith, balance_of-account_of iban bic as_ {a = a} h.1, eq_of_parts x.id a.id)

-- With enough funds the debit leaves no negative balance, so the tripwire stays silent.
pub funds_left :
    (b total left : ℤ) → ltb_ℤ b total ≡ false → left ≡ b -ℤ total → leb_ℤ (pos 0) left ≡ true
funds_left b total left h e = ground (arith, -ℤ_parts b total)

abbrev created_response : Response
created_response = record { status_code = status_created; body = none }

module _ {S : Type 0} (v : View S) {repo : Repository S} (laws : RepositoryLaws v repo) where
  -- Recording a result under a fresh key, in a state whose tables are `t`.
  recorded-Submitted :
      (ctx : Context) (req : BulkTransferRequest) (r : Response) (s : S)
      {P : Response → Tables → Type 0}
      → ctx.tx ≡ true
      → (status_of req.idempotency_key (v.current s).keys ≡ none
          → P r (add_key req.idempotency_key r.status_code (v.current s)))
      → May v s P (recorded repo ctx req r s)
  recorded-Submitted ctx req r s {P} tx h =
      May-finally v (repo.record_idempotency ctx req.idempotency_key r.status_code) r
        (laws.record_key ctx req.idempotency_key r.status_code s tx)
        (λ _ t p. subst (P r) (sym p.1) (h p.0))

  module _ (ctx : Context) (tx : ctx.tx ≡ true) (req : BulkTransferRequest)
      (account : Account) where
    abbrev total : ℤ
    total = total_cents req

    abbrev key : String
    key = req.idempotency_key

    abbrev before_debit : ℤ → List TransactionRow → Tables → Tables
    before_debit batch_id rows t = add_transactions rows (
        add_batch
          (record {
            id = batch_id;
            bank_account_id = account.id;
            idempotency_key = key;
            total_amount_cents = total;
          })
          t)

    -- The debit, on tables where the account has enough funds.
    debit_batch-May :
        (s : S) {P : Response → Tables → Type 0}
        → status_of key (v.current s).keys ≡ none
        → balance_of account.id (v.current s).accounts ≡ some account.balance_cents
        → ltb_ℤ account.balance_cents total ≡ false
        → P created_response (add_key key status_created (debit_in account.id total (v.current s)))
        → May v s P (debit_batch repo ctx req account total s)
    unfolding debit_batch check_balance_invariant
    debit_batch-May s {P} fresh known funds h =
        Does-bind v (repo.debit_account ctx account.id total)
          (λ left.
            check_balance_invariant account.id left >> recorded repo ctx req created_response)
          (laws.debits ctx account.id total s tx)
          (λ left s' c a (b, eb, el, et).
            let q : b ≡ account.balance_cents = cc (eb, known) in
            rw (funds_left account.balance_cents total left funds (el ∙ ap (λ x. x -ℤ total) q)) (
              recorded-Submitted ctx req created_response s' tx
                (λ _. subst (λ t. P created_response (add_key key status_created t)) (sym et) h)))

    -- The whole batch, from tables `t` in which the account stands with enough funds.
    persist_batch-Submitted :
        (s : S)
        → status_of key (v.current s).keys ≡ none
        → account_of req.organization_iban req.organization_bic (v.current s).accounts
          ≡ some account
        → ltb_ℤ account.balance_cents total ≡ false
        → May v s (Submitted req (v.current s)) (persist_batch repo ctx req account total s)
    unfolding persist_batch post_batch
    persist_batch-Submitted s fresh known funds =
        Does-bind v (repo.insert_batch ctx account.id key total)
          (λ batch_id. post_batch repo ctx req account total batch_id)
          (laws.batch ctx account.id key total s tx)
          (λ batch_id s1 c1 a1 (positive, p1).
            Does-bind v (repo.insert_transactions ctx account.id batch_id req.credit_transfers)
              (λ _. debit_batch repo ctx req account total)
              (laws.transactions ctx account.id batch_id req.credit_transfers s1 tx)
              (λ _ s2 c2 a2 (rows, posted, p2).
                let q : v.current s2 ≡ before_debit batch_id rows (v.current s) =
                  p2 ∙ ap (add_transactions rows) p1 in
                debit_batch-May s2 (subst (λ t. status_of key t.keys ≡ none) (sym q) fresh)
                  (subst (λ t. balance_of account.id t.accounts ≡ some account.balance_cents)
                    (sym q) (balance_of-account_of _ _ _ (laws.keyed s) known))
                  funds
                  (subst
                    (λ t.
                      Submitted req (v.current s) created_response
                        (add_key key status_created (debit_in account.id total t)))
                    (sym q) (created account batch_id rows fresh known funds positive posted))))

  with_account-Submitted :
      (ctx : Context) (req : BulkTransferRequest) (found : Option Account) (s : S)
      → ctx.tx ≡ true
      → status_of req.idempotency_key (v.current s).keys ≡ none
      → found ≡ account_of req.organization_iban req.organization_bic (v.current s).accounts
      → May v s (Submitted req (v.current s)) (with_account repo ctx req found s)
  unfolding with_account
  with_account-Submitted ctx req none s tx fresh e =
      recorded-Submitted ctx req (respond status_account_not_found) s tx
        (λ _. not_found fresh (sym e))
  with_account-Submitted ctx req (some account) s tx fresh e =
      elim (Bool-cases (ltb_ℤ account.balance_cents (total_cents req))) [
        | inl short ↦ rw short (
            recorded-Submitted ctx req (respond status_insufficient_funds) s tx
              (λ _. insufficient fresh (sym e) short))
        | inr enough ↦ rw enough (
            persist_batch-Submitted (with_phase ctx "persist_batch") tx req account s fresh (sym e)
              enough)
      ]

  evaluate-Submitted :
      (ctx : Context) (req : BulkTransferRequest) (status : Option ℤ) (s : S)
      → ctx.tx ≡ true
      → status ≡ status_of req.idempotency_key (v.current s).keys
      → May v s (Submitted req (v.current s)) (evaluate repo ctx req status s)
  unfolding evaluate
  evaluate-Submitted ctx req (some status) s tx e = May-pure v s (respond status) (replayed (sym e))
  evaluate-Submitted ctx req none s tx e =
      let resolving = with_phase ctx "resolve_account" in
      Does-bind v
        (repo.find_account_for_update resolving req.organization_iban req.organization_bic)
        (with_account repo resolving req)
        (laws.find_account resolving req.organization_iban req.organization_bic s tx)
        (λ found s' c a (ef, et).
          subst (λ t. May v s' (Submitted req t) (with_account repo resolving req found s')) et
            (with_account-Submitted resolving req found s' tx
              (subst (λ t. status_of req.idempotency_key t.keys ≡ none) (sym et) (sym e)) ef))

  -- Inside the transaction.
  pub submit_body-Submitted :
      (ctx : Context) (req : BulkTransferRequest) (s : S)
      → ctx.tx ≡ true
      → May v s (Submitted req (v.current s)) (submit_body repo req ctx s)
  unfolding submit_body
  submit_body-Submitted ctx req s tx =
      let checking = with_phase ctx "check_idempotency" in
      Does-bind v (repo.advisory_lock checking req.idempotency_key)
        (λ _.
          repo.find_idempotency_record_status checking req.idempotency_key
          >>= evaluate repo checking req)
        (laws.lock checking req.idempotency_key s tx)
        (λ _ s1 c1 a1 e1.
          Does-bind v (repo.find_idempotency_record_status checking req.idempotency_key)
            (evaluate repo checking req) (laws.find_status checking req.idempotency_key s1 tx)
            (λ status s2 c2 a2 (es, e2).
              subst (λ t. May v s2 (Submitted req t) (evaluate repo checking req status s2))
                (e2 ∙ e1) (evaluate-Submitted checking req status s2 tx es)))

  -- A submission that ends without an error has changed the committed tables as the specification
  -- says for its response. With an error they are unchanged, or they were changed as the
  -- specification says, and only the acknowledgement of the commit was lost.
  pub submit_bulk_transfer-Submitted :
      (txn : Transactor S Response)
      → TransactorLaws v txn
      → (ctx : Context) (req : BulkTransferRequest) (s : S)
      → Settled v s (Submitted req (v.committed s)) (submit_bulk_transfer repo txn ctx req s)
  unfolding submit_bulk_transfer
  submit_bulk_transfer-Submitted txn rules ctx req s =
      rules.atomic_rule ctx (submit_body repo req) s (Submitted req (v.committed s)) (λ s1 now c a.
        subst (λ t. May v s1 (Submitted req t) (submit_body repo req (with_tx ctx) s1)) now
          (submit_body-Submitted (with_tx ctx) req s1 refl))
