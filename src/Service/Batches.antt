-- ===== src/Service/Batches.antt =====
-- How many batches a key has.
use text.Mathlib.Text.{◌==◌}
use text.Mathlib.TextEquality.{eq_iff}
use qonto.Prelude.{
  ℕ, suc, String, ◌≡◌, refl, sym, ap, ◌∙◌, Bool-cases, inl, inr, false, Option, none, some, List,
  [], ◌∷◌, if◌then◌else◌,
}
use qonto.Prelude.Int.{ℤ, eqb_ℤ}
use qonto.Model.Transfer.{BulkTransferRequest}
use qonto.Database.Schema.{Tables, BatchRow, status_of}
use qonto.Service.Submit.{
  Response, status_created, status_account_not_found, status_insufficient_funds,
}
use qonto.Service.Outcome.{Submitted, replayed, not_found, insufficient, created}
use qonto.Service.Once.{Reached, start, next}

abbrev pub count_batches : String → List BatchRow → ℕ
count_batches k [] = 0
count_batches k (b ∷ bs) =
    let rest = count_batches k bs in if b.idempotency_key == k then suc rest else rest

-- One batch where 204 is recorded, and none else.
abbrev pub batches_due : Option ℤ → ℕ
batches_due none = 0
batches_due (some status) = if eqb_ℤ status status_created then 1 else 0

abbrev pub IsBooked : Tables → Type 0
IsBooked t = (k : String) → count_batches k t.batches ≡ batches_due (status_of k t.keys)

-- A key that is recorded with a status that books nothing.
refuses :
    (key : String) (status : ℤ) (t : Tables)
    → eqb_ℤ status status_created ≡ false
    → status_of key t.keys ≡ none
    → IsBooked t
    → (k : String)
    → count_batches k t.batches
      ≡ batches_due (status_of k (record { key = key; response_status = status } ∷ t.keys))
refuses key status t other fresh h k = elim (Bool-cases (key == k)) [
  | inl same ↦
      let due : batches_due (status_of k t.keys) ≡ 0 =
        ap (λ x. batches_due (status_of x t.keys)) (sym ((eq_iff key k).0 same))
        ∙ ap batches_due fresh in
      rw (same, other) (h k ∙ due)
  | inr apart ↦ rw apart (h k)
]

Submitted-IsBooked :
    {req : BulkTransferRequest} {t t' : Tables} {r : Response}
    → Submitted req t r t'
    → IsBooked t
    → IsBooked t'
Submitted-IsBooked (replayed _) h k = h k
Submitted-IsBooked {req} {t} (not_found fresh _) h k =
    refuses req.idempotency_key status_account_not_found t refl fresh h k
Submitted-IsBooked {req} {t} (insufficient fresh _ _) h k =
    refuses req.idempotency_key status_insufficient_funds t refl fresh h k
Submitted-IsBooked {req} {t} (created account id rows fresh _ _ _ _) h k =
    elim (Bool-cases (req.idempotency_key == k)) [
      | inl same ↦
          let due : batches_due (status_of k t.keys) ≡ 0 =
            ap (λ x. batches_due (status_of x t.keys)) (sym ((eq_iff req.idempotency_key k).0 same))
            ∙ ap batches_due fresh in
          rw same (ap suc (h k ∙ due))
      | inr apart ↦ rw apart (h k)
    ]

-- From tables where every key with a recorded 204 has one batch and every other key none, any
-- number of submissions keeps it so: no key ever has two batches, and a batch is never without its
-- record.
pub one_batch_per_key : {t t' : Tables} → IsBooked t → Reached t t' → IsBooked t'
one_batch_per_key h start = h
one_batch_per_key h (next before last) = Submitted-IsBooked last (one_batch_per_key h before)
