-- ===== src/Concurrency/Known.antt =====
-- What a session knows of the committed tables, and what other sessions leave of it.
use text.Mathlib.Text.{◌==◌}
use text.Mathlib.TextEquality.{eq_iff}
use qonto.Prelude.{
  String, ◌≡◌, ◌≢◌, refl, Bool-cases, inl, inr, true, false, none, some, List, [], ◌∷◌, map, arith,
}
use qonto.Prelude.Int.{ℤ, pos, ◌≤ℤ◌, ltb_ℤ, eqb_ℤ}
use qonto.Model.Transfer.{Account, BulkTransferRequest, total_cents}
use qonto.Database.Schema.{Tables, KeyRow, TransactionRow, status_of, account_of, debit, posting_of}
use qonto.Service.Submit.{respond}
use qonto.Concurrency.Session.{
  Stage, opening, locked, replying, fresh, missing, located, inserted, posted, debited,
  settling_missing, settling_short, settling_created, answered, ended, holds_key, held_row, Move,
  take_key, read_status, read_none, find_none, find_account, record_missing, record_short,
  batch_written, transactions_written, account_debited, record_created,
}

-- The account stands as it was read.
abbrev pub Stands : BulkTransferRequest → Account → Tables → Type 0
Stands req a t = account_of req.organization_iban req.organization_bic t.accounts ≡ some a

abbrev pub IsNew : BulkTransferRequest → Tables → Type 0
IsNew req t = status_of req.idempotency_key t.keys ≡ none

abbrev pub Enough : BulkTransferRequest → Account → Type 0
Enough req a = (ltb_ℤ a.balance_cents (total_cents req) ≡ false) × (pos 1 ≤ℤ total_cents req)

abbrev pub Posts : BulkTransferRequest → Account → ℤ → List TransactionRow → Type 0
Posts req a batch_id rows =
    map (λ (r : TransactionRow). r.posting) rows
    ≡ map (posting_of a.id batch_id) req.credit_transfers

abbrev pub Known : BulkTransferRequest → Stage → Tables → Type 0
Known req opening t = Unit
Known req locked t = Unit
Known req ended t = Unit
Known req (replying status) t = status_of req.idempotency_key t.keys ≡ some status
Known req fresh t = IsNew req t
Known req missing t =
    IsNew req t × (account_of req.organization_iban req.organization_bic t.accounts ≡ none)
Known req (located a) t = IsNew req t × Stands req a t
Known req (inserted a _) t = IsNew req t × Stands req a t × Enough req a
Known req (posted a b rows) t = IsNew req t × Stands req a t × Enough req a × Posts req a b rows
Known req (debited a b rows) t = IsNew req t × Stands req a t × Enough req a × Posts req a b rows
Known req settling_missing t =
    IsNew req t × (account_of req.organization_iban req.organization_bic t.accounts ≡ none)
Known req (settling_short a) t =
    IsNew req t × Stands req a t × (ltb_ℤ a.balance_cents (total_cents req) ≡ true)
Known req (settling_created a b rows) t =
    IsNew req t × Stands req a t × Enough req a × Posts req a b rows
Known req (answered r) t =
    (status_of req.idempotency_key t.keys ≡ some r.status_code) × (r ≡ respond r.status_code)

-- What a change of the committed tables must leave for a session to keep what it knows.
pub record Leaves (req : BulkTransferRequest) (p : Stage) (t t' : Tables) : Type 0 where
  pub new : holds_key p ≡ true → IsNew req t → IsNew req t'
  pub recorded :
      (n : ℤ)
      → status_of req.idempotency_key t.keys ≡ some n
      → status_of req.idempotency_key t'.keys ≡ some n
  pub absent :
      account_of req.organization_iban req.organization_bic t.accounts ≡ none
      → account_of req.organization_iban req.organization_bic t'.accounts ≡ none
  pub stands : (a : Account) → held_row p ≡ some a → Stands req a t → Stands req a t'

pub Known-kept :
    (req : BulkTransferRequest) (p : Stage) (t t' : Tables)
    → Leaves req p t t'
    → Known req p t
    → Known req p t'
Known-kept req opening t t' l k = k
Known-kept req locked t t' l k = k
Known-kept req ended t t' l k = k
Known-kept req (replying status) t t' l k = l.recorded status k
Known-kept req fresh t t' l k = l.new refl k
Known-kept req missing t t' l (n, m) = (l.new refl n, l.absent m)
Known-kept req (located a) t t' l (n, s) = (l.new refl n, l.stands a refl s)
Known-kept req (inserted a b) t t' l (n, s, e) = (l.new refl n, l.stands a refl s, e)
Known-kept req (posted a b rows) t t' l (n, s, e, r) = (l.new refl n, l.stands a refl s, e, r)
Known-kept req (debited a b rows) t t' l (n, s, e, r) = (l.new refl n, l.stands a refl s, e, r)
Known-kept req settling_missing t t' l (n, m) = (l.new refl n, l.absent m)
Known-kept req (settling_short a) t t' l (n, s, e) = (l.new refl n, l.stands a refl s, e)
Known-kept req (settling_created a b rows) t t' l (n, s, e, r) =
    (l.new refl n, l.stands a refl s, e, r)
Known-kept req (answered r) t t' l (s, e) = (l.recorded r.status_code s, e)

-- A session learns from its own move.
pub Move-Known :
    {key_free : Type 0} {row_free : ℤ → Type 0} {t : Tables} {req : BulkTransferRequest}
    {p q : Stage}
    → Move key_free row_free t req p q
    → Known req p t
    → Known req q t
Move-Known (take_key _) k = k
Move-Known (read_status e) k = e
Move-Known (read_none e) k = e
Move-Known (find_none e) k = (k, e)
Move-Known (find_account e _) k = (k, e)
Move-Known (record_missing e) k = k
Move-Known (record_short short e) (n, s) = (n, s, short)
Move-Known (batch_written b enough positive) (n, s) = (n, s, (enough, positive))
Move-Known (transactions_written rows e) (n, s, enough) = (n, s, enough, e)
Move-Known (account_debited e left) k = k
Move-Known (record_created e) k = k

pub status_of-other :
    (k key : String) (status : ℤ) (ks : List KeyRow)
    → key ≢ k
    → status_of k ks ≡ none
    → status_of k (record { key = key; response_status = status } ∷ ks) ≡ none
status_of-other k key status ks ne h = elim (Bool-cases (key == k)) [
  | inl same ↦ elim (ne ((eq_iff key k).0 same)) [ ]
  | inr other ↦ rw other h
]

pub account_of-debit-none :
    (iban bic : String) (id amount : ℤ) (as_ : List Account)
    → account_of iban bic as_ ≡ none
    → account_of iban bic (debit id amount as_) ≡ none
account_of-debit-none iban bic id amount [] h = refl
account_of-debit-none iban bic id amount (a ∷ as_) h =
    ground (arith, account_of-debit-none iban bic id amount as_)

pub account_of-debit_other :
    (iban bic : String) (id amount : ℤ) (as_ : List Account) {a : Account}
    → eqb_ℤ a.id id ≡ false
    → account_of iban bic as_ ≡ some a
    → account_of iban bic (debit id amount as_) ≡ some a
account_of-debit_other iban bic id amount [] ne h = cc
account_of-debit_other iban bic id amount (x ∷ as_) {a} ne h =
    ground (arith, account_of-debit_other iban bic id amount as_ {a = a} ne)
