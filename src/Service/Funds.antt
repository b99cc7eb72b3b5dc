-- ===== src/Service/Funds.antt =====
-- The ledger: what submissions do to the balances, the batches and the transactions.
use mathlib.Core.Path.{subst}
use qonto.Prelude.{◌≡◌, ap, ◌∙◌, Bool-cases, inl, inr, some}
use qonto.Prelude.Int.{ℤ, ◌+ℤ◌, ◌-ℤ◌, eqb_ℤ, int_laws}
use qonto.Model.Transfer.{BulkTransferRequest, total_cents}
use qonto.Database.Schema.{Tables, balance_of, debit, IsKeyed}
use qonto.Database.Rows.{
  eqb_ℤ-true, balance_of-debit, balance_of-debit_other, debit-IsKeyed, IsSolvent, debit-IsSolvent,
  debited,
}
use qonto.Service.Submit.{Response}
use qonto.Service.Outcome.{Submitted, replayed, not_found, insufficient, created}
use qonto.Service.Refinement.{balance_of-account_of}
use qonto.Service.Once.{Reached, start, next}

-- The ids of the accounts are unique and no account is in the red.
abbrev pub IsSound : Tables → Type 0
IsSound t = IsKeyed t.accounts × IsSolvent t.accounts

pub Submitted-IsSound :
    {req : BulkTransferRequest} {t t' : Tables} {r : Response}
    → Submitted req t r t'
    → IsSound t
    → IsSound t'
Submitted-IsSound (replayed _) s = s
Submitted-IsSound (not_found _ _) s = s
Submitted-IsSound (insufficient _ _ _) s = s
Submitted-IsSound {req} {t} (created account id rows fresh known funds positive posted)
      (keyed, solvent) =
    (
      debit-IsKeyed account.id (total_cents req) t.accounts keyed,
      debit-IsSolvent account.id (total_cents req) t.accounts keyed
          (balance_of-account_of req.organization_iban req.organization_bic t.accounts keyed known)
          funds solvent,
    )

-- What an account has and what was debited from it, in all: a balance that is kept.
abbrev pub Balances : ℤ → ℤ → Tables → Type 0
Balances id worth t =
    (b : ℤ) × (balance_of id t.accounts ≡ some b) × (b +ℤ debited id t.batches ≡ worth)

move : (b amount past : ℤ) → (b -ℤ amount) +ℤ (amount +ℤ past) ≡ b +ℤ past
move b amount past = omega int_laws

pub Submitted-Balances :
    {req : BulkTransferRequest} {t t' : Tables} {r : Response} (id worth : ℤ)
    → Submitted req t r t'
    → IsKeyed t.accounts
    → Balances id worth t
    → Balances id worth t'
Submitted-Balances id worth (replayed _) k h = h
Submitted-Balances id worth (not_found _ _) k h = h
Submitted-Balances id worth (insufficient _ _ _) k h = h
Submitted-Balances {req} {t} id worth (created account batch rows fresh known funds positive posted)
      k (b, found, sum) =
    elim (Bool-cases (eqb_ℤ account.id id)) [
      | inl own ↦
          let same : account.id ≡ id = eqb_ℤ-true account.id id own in
          rw own (
            b -ℤ total_cents req,
            subst
                (λ x.
                  balance_of x (debit account.id (total_cents req) t.accounts)
                  ≡ some (b -ℤ total_cents req))
                same
                (balance_of-debit account.id (total_cents req) t.accounts
                  (ap (λ x. balance_of x t.accounts) same ∙ found)),
            move b (total_cents req) (debited id t.batches) ∙ sum,
          )
      | inr other ↦
          rw other (
            b,
            balance_of-debit_other account.id id (total_cents req) t.accounts other ∙ found,
            sum,
          )
    ]

Reached-IsSound : {t t' : Tables} → Reached t t' → IsSound t → IsSound t'
Reached-IsSound start s = s
Reached-IsSound (next before last) s = Submitted-IsSound last (Reached-IsSound before s)

-- From tables with unique account ids and no account in the red, after any number of submissions
-- the ids are still unique, no account is in the red, and the balance of an account and the batches
-- debited from it add up to what they added up to before.
pub balanced_ledger :
    {t t' : Tables} (id worth : ℤ)
    → Reached t t'
    → IsSound t
    → Balances id worth t
    → IsSound t' × Balances id worth t'
balanced_ledger id worth start s b = (s, b)
balanced_ledger id worth (next before last) s b =
    let (s1, b1) = balanced_ledger id worth before s b in
    (Submitted-IsSound last s1, Submitted-Balances id worth last s1.0 b1)
