-- ===== src/Service/Once.antt =====
-- Idempotency: what the key of a request guarantees.
use text.Mathlib.Text.{◌==◌}
use text.Mathlib.TextEquality.{eq_iff}
use text.Mathlib.TextPositions.{eq_refl}
use qonto.Prelude.{String, ◌≡◌, refl, sym, ap, ◌∙◌, Bool-cases, inl, inr, none, some, List, ◌∷◌}
use qonto.Prelude.Int.{ℤ}
use qonto.Model.Transfer.{BulkTransferRequest}
use qonto.Database.Schema.{Tables, KeyRow, status_of}
use qonto.Service.Submit.{Response, respond, response_body_for}
use qonto.Service.Outcome.{Submitted, replayed, not_found, insufficient, created}

-- Any number of submissions, one after the other.
pub data Reached (t : Tables) : Tables → Type 0 where
  start : Reached t t
  next :
      {t1 t2 : Tables} {req : BulkTransferRequest} {r : Response}
      → Reached t t1
      → Submitted req t1 r t2
      → Reached t t2

pub status_of-add_key :
    (k : String) (status : ℤ) (ks : List KeyRow)
    → status_of k (record { key = k; response_status = status } ∷ ks) ≡ some status
status_of-add_key k status ks = rw (eq_refl k) refl

kept :
    (k key : String) (status n : ℤ) (ks : List KeyRow)
    → status_of key ks ≡ none
    → status_of k ks ≡ some n
    → status_of k (record { key = key; response_status = status } ∷ ks) ≡ some n
kept k key status n ks fresh h = elim (Bool-cases (key == k)) [
  | inl same ↦ cc (ap (λ x. status_of x ks) ((eq_iff key k).0 same), fresh, h)
  | inr other ↦ rw other h
]

-- The response is the one that is recorded, and it is read back as it was given.
pub Submitted-recorded :
    {req : BulkTransferRequest} {t t' : Tables} {r : Response}
    → Submitted req t r t'
    → (status_of req.idempotency_key t'.keys ≡ some r.status_code) × (r ≡ respond r.status_code)
unfolding response_body_for
Submitted-recorded (replayed h) = (h, refl)
Submitted-recorded {req} {t} (not_found fresh _) =
    (status_of-add_key req.idempotency_key _ t.keys, refl)
Submitted-recorded {req} {t} (insufficient fresh _ _) =
    (status_of-add_key req.idempotency_key _ t.keys, refl)
Submitted-recorded {req} {t} (created account id rows fresh _ _ _ _) =
    (status_of-add_key req.idempotency_key _ t.keys, refl)

-- A recorded status is never changed or removed.
pub Submitted-keeps :
    {req : BulkTransferRequest} {t t' : Tables} {r : Response} (k : String) (n : ℤ)
    → Submitted req t r t'
    → status_of k t.keys ≡ some n
    → status_of k t'.keys ≡ some n
Submitted-keeps k n (replayed _) h = h
Submitted-keeps {req} {t} k n (not_found fresh _) h = kept k req.idempotency_key _ n t.keys fresh h
Submitted-keeps {req} {t} k n (insufficient fresh _ _) h =
    kept k req.idempotency_key _ n t.keys fresh h
Submitted-keeps {req} {t} k n (created account id rows fresh _ _ _ _) h =
    kept k req.idempotency_key _ n t.keys fresh h

Reached-keeps :
    {t t' : Tables} (k : String) (n : ℤ)
    → Reached t t'
    → status_of k t.keys ≡ some n
    → status_of k t'.keys ≡ some n
Reached-keeps k n start h = h
Reached-keeps k n (next before last) h = Submitted-keeps k n last (Reached-keeps k n before h)

-- A submission under a recorded key replays the recorded status and changes nothing.
pub Submitted-replay :
    {req : BulkTransferRequest} {t t' : Tables} {r : Response} {n : ℤ}
    → status_of req.idempotency_key t.keys ≡ some n
    → Submitted req t r t'
    → (t' ≡ t) × (r ≡ respond n)
Submitted-replay h (replayed {status} e) = (refl, ap respond (cc (h, e)))
Submitted-replay h (not_found fresh _) = cc (h, fresh)
Submitted-replay h (insufficient fresh _ _) = cc (h, fresh)
Submitted-replay h (created account id rows fresh _ _ _ _) = cc (h, fresh)

-- Exactly once: after a submission, however many others follow, a submission with the same key
-- changes no table and has the same response.
pub exactly_once :
    {req req' : BulkTransferRequest} {t t1 t2 t3 : Tables} {r r' : Response}
    → Submitted req t r t1
    → Reached t1 t2
    → req'.idempotency_key ≡ req.idempotency_key
    → Submitted req' t2 r' t3
    → (t3 ≡ t2) × (r' ≡ r)
exactly_once {req} {t1} {t2} first others same again =
    let (recorded, shape) = Submitted-recorded first in
    let (unchanged, replay) =
      Submitted-replay
        (ap (λ k. status_of k t2.keys) same ∙ Reached-keeps req.idempotency_key _ others recorded)
        again in
    (unchanged, replay ∙ sym shape)
