-- ===== src/Concurrency/Progress.antt =====
-- Who holds a row does not wait, so waiting ends: no cycle of waiting sessions can form.
use qonto.Prelude.{ℕ, String, ◌≡◌, refl, ap, ◌⊎◌, inl, inr, Bool-cases, some, List, [], ◌∷◌, map}
use qonto.Prelude.Int.{ℤ, pos, ◌-ℤ◌, ◌≤ℤ◌, ltb_ℤ}
use qonto.Model.Transfer.{Account, BulkTransferRequest, CreditTransfer, total_cents}
use qonto.Database.Schema.{Tables, TransactionRow, IsKeyed, posting_of}
use qonto.Service.Submit.{Response}
use qonto.Service.Refinement.{balance_of-account_of, funds_left}
use qonto.Concurrency.Session.{
  Stage, opening, locked, replying, fresh, missing, settling_missing, answered, ended, located,
  inserted, posted, debited, settling_short, settling_created, held_row, Move, record_short,
  batch_written, transactions_written, account_debited, record_created, Commit, commit_short,
  commit_created,
}
use qonto.Concurrency.System.{System, KeyFree, RowFree, Interleaved}
use qonto.Concurrency.Known.{Known}
use qonto.Concurrency.Serial.{Interleaved-Inv}

-- A session's next statement is possible, or its commit.
abbrev pub Proceeds : Type 0 → (ℤ → Type 0) → Tables → BulkTransferRequest → Stage → Type 0
Proceeds key_free row_free t req p =
    ((q : Stage) × Move key_free row_free t req p q)
    ⊎ ((r : Response) × (t' : Tables) × Commit t req p r t')

-- Rows for the transfers, with some ids and times.
some_rows : ℤ → ℤ → List CreditTransfer → List TransactionRow
some_rows account_id batch_id =
    map (λ c. record { id = pos 0; created_at = pos 0; posting = posting_of account_id batch_id c })

some_rows-posting :
    (account_id batch_id : ℤ) (ts : List CreditTransfer)
    → map (λ (r : TransactionRow). r.posting) (some_rows account_id batch_id ts)
      ≡ map (posting_of account_id batch_id) ts
unfolding some_rows
some_rows-posting account_id batch_id [] = refl
some_rows-posting account_id batch_id (c ∷ ts) =
    ap (λ r. posting_of account_id batch_id c ∷ r) (some_rows-posting account_id batch_id ts)

module _ {key_free : Type 0} {row_free : ℤ → Type 0} (req : BulkTransferRequest) (t : Tables) where
  proceeds :
      (p : Stage) (a : Account)
      → IsKeyed t.accounts
      → pos 1 ≤ℤ total_cents req
      → Known req p t
      → held_row p ≡ some a
      → Proceeds key_free row_free t req p
  proceeds (located b) a keyed positive (n, s) h =
      elim (Bool-cases (ltb_ℤ b.balance_cents (total_cents req))) [
        | inl short ↦ inl (settling_short b, record_short short n)
        | inr enough ↦ inl (inserted b (pos 0), batch_written (pos 0) enough positive)
      ]
  proceeds (inserted b batch) a keyed positive k h = inl (
    _,
    transactions_written (some_rows b.id batch req.credit_transfers)
        (some_rows-posting b.id batch req.credit_transfers),
  )
  proceeds (posted b batch rows) a keyed positive (n, s, (enough, _), r) h = inl (
    debited b batch rows,
    account_debited {balance = b.balance_cents}
        (balance_of-account_of req.organization_iban req.organization_bic t.accounts keyed s)
        (funds_left b.balance_cents (total_cents req) (b.balance_cents -ℤ total_cents req) enough
          refl),
  )
  proceeds (debited b batch rows) a keyed positive k h =
      inl (settling_created b batch rows, record_created k.0)
  proceeds (settling_short b) a keyed positive k h = inr (_, _, commit_short)
  proceeds (settling_created b batch rows) a keyed positive k h = inr (_, _, commit_created)
  proceeds opening a keyed positive k h = cc
  proceeds locked a keyed positive k h = cc
  proceeds (replying _) a keyed positive k h = cc
  proceeds fresh a keyed positive k h = cc
  proceeds missing a keyed positive k h = cc
  proceeds settling_missing a keyed positive k h = cc
  proceeds (answered _) a keyed positive k h = cc
  proceeds ended a keyed positive k h = cc

-- In every interleaving, a session that has locked the row of an account for a positive total waits
-- for no one: its next statement or its commit is possible, whatever the others hold.
pub row_holder_goes_on :
    (hashtext : String → ℤ) (requests : ℕ → BulkTransferRequest) {t : Tables} {s : System}
    → IsKeyed t.accounts
    → Interleaved hashtext requests t s
    → (i : ℕ) (a : Account) → pos 1 ≤ℤ total_cents (requests i)
    → held_row (s.stage i) ≡ some a
    → Proceeds
        (KeyFree hashtext requests s.stage i)
        (RowFree hashtext requests s.stage i)
        s.tables
        (requests i)
        (s.stage i)
row_holder_goes_on hashtext requests {s} k run i a positive h =
    let inv = Interleaved-Inv hashtext requests run k in
    proceeds (requests i) s.tables (s.stage i) a inv.keyed positive (inv.known i) h
