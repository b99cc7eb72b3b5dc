-- ===== src/Model/Transfer/Total.antt =====
-- `TotalCents` against the exact sum.
use qonto.Prelude.{ℕ, ◌+◌, ◌^◌, ◌≤◌, ◌≡◌, ◌∙◌, sym, ap, List, [], ◌∷◌, All, arith}
use qonto.Prelude.Int.{+ℤ_assoc, pos-zero_+ℤ, +ℤ-zero, ℤ, pos, ◌+ℤ◌, ◌≤ℤ◌, int_laws}
use qonto.Go.Int64.{IsInt64, max_int64, wrap64, wrap64_fits, wrap64-IsInt64, add64}
use qonto.Model.Transfer.{CreditTransfer, BulkTransferRequest, sum_from, total_cents}

-- The sum of the amounts, with no bound.
abbrev pub exact_total : List CreditTransfer → ℤ
exact_total [] = pos 0
exact_total (t ∷ ts) = t.amount_cents +ℤ exact_total ts

wrap64-+ℤ_left : (a b : ℤ) → wrap64 (wrap64 a +ℤ b) ≡ wrap64 (a +ℤ b)
unfolding wrap64 ◌+ℤ◌
wrap64-+ℤ_left a b = ground arith

add64-IsInt64 : (a b : ℤ) → IsInt64 (add64 a b)
unfolding add64
add64-IsInt64 a b = wrap64-IsInt64 (a +ℤ b)

wrapped_head : (a b c : ℤ) → wrap64 (add64 a b +ℤ c) ≡ wrap64 (a +ℤ b +ℤ c)
unfolding add64
wrapped_head a b c = wrap64-+ℤ_left (a +ℤ b) c

wrap_once : (c : ℕ) → c ≤ max_int64 → wrap64 (pos (2 ^ 64 + c)) ≡ pos c
unfolding wrap64
wrap_once c h = ground arith

sum_from-wrap64 :
    (total : ℤ) (ts : List CreditTransfer)
    → IsInt64 total
    → sum_from total ts ≡ wrap64 (total +ℤ exact_total ts)
unfolding sum_from
sum_from-wrap64 total [] h = sym (wrap64_fits total h) ∙ ap wrap64 (sym (+ℤ-zero total))
sum_from-wrap64 total (t ∷ ts) h =
    sum_from-wrap64 (add64 total t.amount_cents) ts (add64-IsInt64 total t.amount_cents)
    ∙ wrapped_head total t.amount_cents (exact_total ts)
    ∙ ap wrap64 (+ℤ_assoc total t.amount_cents (exact_total ts))

-- The total is the exact sum modulo 2^64, as an int64, for every list of transfers.
pub total_cents-wrap64 :
    (r : BulkTransferRequest) → total_cents r ≡ wrap64 (exact_total r.credit_transfers)
unfolding total_cents
total_cents-wrap64 r =
    sum_from-wrap64 (pos 0) r.credit_transfers (omega arith) ∙ ap wrap64 (pos-zero_+ℤ _)

-- Where the exact sum fits an int64, the total is the exact sum.
pub total_cents_exact :
    (r : BulkTransferRequest)
    → IsInt64 (exact_total r.credit_transfers)
    → total_cents r ≡ exact_total r.credit_transfers
total_cents_exact r h = total_cents-wrap64 r ∙ wrap64_fits _ h

-- Positive amounts never sum to less than the largest of them.
abbrev pub IsPayable : CreditTransfer → Type 0
IsPayable t = (pos 1 ≤ℤ t.amount_cents) × (t.amount_cents ≤ℤ pos max_int64)

pub exact_total-nonneg : (ts : List CreditTransfer) → All IsPayable ts → pos 0 ≤ℤ exact_total ts
exact_total-nonneg [] h = omega arith
exact_total-nonneg (t ∷ ts) h = omega (int_laws, exact_total-nonneg ts h.1)

-- A batch of positive amounts whose exact sum fits an int64 has a positive total, and no amount of
-- the batch is larger than the total.
pub total_cents_bounds :
    (r : BulkTransferRequest) (t : CreditTransfer) (ts : List CreditTransfer)
    → r.credit_transfers ≡ t ∷ ts
    → All IsPayable (t ∷ ts)
    → exact_total (t ∷ ts) ≤ℤ pos max_int64
    → (pos 1 ≤ℤ total_cents r) × (t.amount_cents ≤ℤ total_cents r)
total_cents_bounds r t ts e h fits =
    rw
      (
        total_cents-wrap64,
        e,
        wrap64_fits (exact_total (t ∷ ts)) (omega (int_laws, exact_total-nonneg ts h.1)),
      )
      (omega (int_laws, exact_total-nonneg ts h.1))

-- A batch whose exact sum is 2^64 + c cents, with c an int64, is totalled as c cents.
pub total_cents_overflow :
    (r : BulkTransferRequest) (c : ℕ)
    → exact_total r.credit_transfers ≡ pos (2 ^ 64 + c)
    → c ≤ max_int64
    → total_cents r ≡ pos c
total_cents_overflow r c e h = rw (total_cents-wrap64, e) (wrap_once c h)
