-- ===== src/Database/Rows.antt =====
-- What one statement of the program leaves of the rows that another one reads.
use qonto.Prelude.{
  ◌≡◌, refl, sym, ap, ◌∙◌, true, false, Bool-cases, inl, inr, none, some, List, [], ◌∷◌, arith,
  if◌then◌else◌, All,
}
use qonto.Prelude.Int.{ℤ, pos, ◌+ℤ◌, ◌-ℤ◌, ◌≤ℤ◌, eqb_ℤ, ltb_ℤ, eq_of_parts, -ℤ_parts}
use qonto.Model.Transfer.{Account}
use qonto.Database.Schema.{BatchRow, balance_of, debit, IsKeyed}

pub eqb_ℤ-true : (a b : ℤ) → eqb_ℤ a b ≡ true → a ≡ b
eqb_ℤ-true a b h = ground (arith, eq_of_parts a b)

pub balance_of-debit :
    (id amount : ℤ) (as_ : List Account) {b : ℤ}
    → balance_of id as_ ≡ some b
    → balance_of id (debit id amount as_) ≡ some (b -ℤ amount)
balance_of-debit id amount [] h = cc
balance_of-debit id amount (a ∷ as_) {b} h = ground (arith, balance_of-debit id amount as_ {b = b})

pub balance_of-debit_other :
    (id other amount : ℤ) (as_ : List Account)
    → eqb_ℤ id other ≡ false
    → balance_of other (debit id amount as_) ≡ balance_of other as_
balance_of-debit_other id other amount [] h = refl
balance_of-debit_other id other amount (a ∷ as_) h =
    ground (arith, balance_of-debit_other id other amount as_ h)

pub balance_of-debit-none :
    (id other amount : ℤ) (as_ : List Account)
    → balance_of other as_ ≡ none
    → balance_of other (debit id amount as_) ≡ none
balance_of-debit-none id other amount [] h = refl
balance_of-debit-none id other amount (a ∷ as_) h =
    ground (arith, balance_of-debit-none id other amount as_)

pub debit-none :
    (id amount : ℤ) (as_ : List Account) → balance_of id as_ ≡ none → debit id amount as_ ≡ as_
debit-none id amount [] h = refl
debit-none id amount (a ∷ as_) h = ground (arith, debit-none id amount as_)

pub debit-IsKeyed :
    (id amount : ℤ) (as_ : List Account) → IsKeyed as_ → IsKeyed (debit id amount as_)
debit-IsKeyed id amount [] h = h
debit-IsKeyed id amount (a ∷ as_) h = elim (Bool-cases (eqb_ℤ a.id id)) [
  | inl own ↦ rw own (balance_of-debit-none id a.id amount as_ h.0, debit-IsKeyed id amount as_ h.1)
  | inr other ↦
      rw other (balance_of-debit-none id a.id amount as_ h.0, debit-IsKeyed id amount as_ h.1)
]

-- No account is in the red.
abbrev pub IsSolvent : List Account → Type 0
IsSolvent as_ = All (λ (a : Account). pos 0 ≤ℤ a.balance_cents) as_

found_here :
    (a : Account) (id : ℤ) (as_ : List Account) {b : ℤ}
    → eqb_ℤ a.id id ≡ true
    → balance_of id (a ∷ as_) ≡ some b
    → a.balance_cents ≡ b
found_here a id as_ own h = ground arith

found_later :
    (a : Account) (id : ℤ) (as_ : List Account) {b : ℤ}
    → eqb_ℤ a.id id ≡ false
    → balance_of id (a ∷ as_) ≡ some b
    → balance_of id as_ ≡ some b
found_later a id as_ other h = ground arith

left_solvent : (x b amount : ℤ) → x ≡ b → ltb_ℤ b amount ≡ false → pos 0 ≤ℤ (x -ℤ amount)
left_solvent x b amount e f = ground (arith, -ℤ_parts x amount)

pub debit-IsSolvent :
    (id amount : ℤ) (as_ : List Account) {b : ℤ}
    → IsKeyed as_
    → balance_of id as_ ≡ some b
    → ltb_ℤ b amount ≡ false
    → IsSolvent as_
    → IsSolvent (debit id amount as_)
debit-IsSolvent id amount [] k h f s = s
debit-IsSolvent id amount (a ∷ as_) {b} (once, k) h f (s, ss) = elim (Bool-cases (eqb_ℤ a.id id)) [
  | inl own ↦
      let here : a.balance_cents ≡ b = found_here a id as_ own h in
      let rest : debit id amount as_ ≡ as_ =
        debit-none id amount as_
          (ap (λ x. balance_of x as_) (sym (eqb_ℤ-true a.id id own)) ∙ once) in
      rw (own, rest) (left_solvent a.balance_cents b amount here f, ss)
  | inr other ↦ rw other (s, debit-IsSolvent id amount as_ k (found_later a id as_ other h) f ss)
]

-- The sum of the batches of one account.
abbrev pub debited : ℤ → List BatchRow → ℤ
debited id [] = pos 0
debited id (b ∷ bs) =
    if eqb_ℤ b.bank_account_id id then b.total_amount_cents +ℤ debited id bs else debited id bs
