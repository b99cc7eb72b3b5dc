-- ===== src/Server/Rejection.antt =====
-- Which requests reach the business layer, and as what.
use mathlib.Core.Path.{subst}
use text.Mathlib.Text.{◌==◌}
use text.Mathlib.TextEquality.{eq_iff}
use qonto.Prelude.{
  String, ◌≡◌, ◌≢◌, Bool-cases, refl, sym, ap, ◌⊎◌, inl, inr, true, Bytes, Option, none, some, List,
  [], ◌∷◌, All, length, suc,
}
use qonto.Prelude.Int.{ℤ, pos}
use qonto.Go.Context.{Context}
use qonto.Model.Money.{Parsed, ok, err, parse_amount_cents}
use qonto.Model.Money.Exact.{parse_amount_cents_sound}
use qonto.Model.Transfer.{CreditTransfer, BulkTransferRequest}
use qonto.Model.Transfer.Total.{IsPayable}
use qonto.Server.Dto.{
  CreditTransferDto, BulkTransferRequestDto, Converted, done, refused, parsed_ok, prepend, convert,
  request_of, transfer_of, validate_amount, to_transfers, idempotency_key_of, to_domain_request,
}
use qonto.Server.Metrics.{bulk_transfers_total, record_rejection, record_outcome}
use qonto.Server.Response.{write_error, ValidationError, format_validation_error}
use qonto.Server.Handler.{
  Service, Library, SubmitRequest, Handled, reject, reply, submit_converted, submit_checked,
  submit_decoded, handle_submit_bulk_transfer,
}

amount-IsPayable :
    (t : CreditTransferDto) (c : ℤ)
    → parse_amount_cents t.amount ≡ ok c
    → IsPayable (transfer_of t c)
amount-IsPayable t c h =
    let (v, a, w, low, high) = parse_amount_cents_sound t.amount c h in (low, high)

prepended :
    (x : CreditTransfer) (rest : Converted (List CreditTransfer)) (xs : List CreditTransfer)
    → prepend x rest ≡ done xs
    → (ys : List CreditTransfer) × (rest ≡ done ys) × (xs ≡ x ∷ ys)
prepended x (done ys) xs h = (ys, refl, cc)
prepended x (refused e) xs h = cc

pub converted :
    (t : CreditTransferDto) (p : Parsed) (rest : Converted (List CreditTransfer))
    (xs : List CreditTransfer)
    → convert t p rest ≡ done xs
    → (c : ℤ) × (ys : List CreditTransfer) × (p ≡ ok c)
      × (rest ≡ done ys)
      × (xs ≡ transfer_of t c ∷ ys)
converted t (ok c) rest xs h =
    let (ys, e, s) = prepended (transfer_of t c) rest xs h in (c, ys, refl, e, s)
converted t (err e) rest xs h = cc

-- A converted list has as many transfers as it was sent with, and each amount is between one cent
-- and the largest int64.
to_transfers-IsPayable :
    (ts : List CreditTransferDto) (xs : List CreditTransfer)
    → to_transfers ts ≡ done xs
    → All IsPayable xs × (length xs ≡ length ts)
unfolding to_transfers
to_transfers-IsPayable [] xs h =
    let e : xs ≡ [] = cc h in subst (λ ys. All IsPayable ys × (length ys ≡ 0)) (sym e) (tt, refl)
to_transfers-IsPayable (t ∷ ts) xs h =
    let (c, ys, p, rest, e) = converted t (parse_amount_cents t.amount) (to_transfers ts) xs h in
    let (payable, same) = to_transfers-IsPayable ts ys rest in
    subst (λ zs. All IsPayable zs × (length zs ≡ suc (length ts))) (sym e)
      ((amount-IsPayable t c p, payable), ap suc same)

accepted_amount : (p : Parsed) → parsed_ok p ≡ true → (c : ℤ) × (p ≡ ok c)
accepted_amount (ok c) h = (c, refl)
accepted_amount (err e) h = cc

-- Every DTO whose amounts pass the test of the tag "amount" is converted.
to_transfers_valid :
    (ts : List CreditTransferDto)
    → All (λ (t : CreditTransferDto). validate_amount t.amount ≡ true) ts
    → (xs : List CreditTransfer) × (to_transfers ts ≡ done xs)
unfolding to_transfers validate_amount
to_transfers_valid [] h = ([], refl)
to_transfers_valid (t ∷ ts) (h, hs) =
    let (xs, e) = to_transfers_valid ts hs in
    let (c, p) = accepted_amount (parse_amount_cents t.amount) h in
    (transfer_of t c ∷ xs, rw (p, e) refl)

-- A body whose amounts all pass the test of the tag "amount" is converted without an error, to one
-- transfer for each of its own, every amount between one cent and the largest int64; the key is the
-- header if there is one, else the hash of the raw body.
pub to_domain_request_valid :
    (hash_body : Bytes → String) (dto : BulkTransferRequestDto) (header_key : String)
    (raw_body : Bytes)
    → All (λ (t : CreditTransferDto). validate_amount t.amount ≡ true) dto.credit_transfers
    → (req : BulkTransferRequest) × (to_domain_request hash_body dto header_key raw_body ≡ done req)
      × All IsPayable req.credit_transfers
      × (length req.credit_transfers ≡ length dto.credit_transfers)
      × (header_key ≢ "" → req.idempotency_key ≡ header_key)
      × (header_key ≡ "" → req.idempotency_key ≡ hash_body raw_body)
unfolding to_domain_request idempotency_key_of
to_domain_request_valid hash_body dto header_key raw_body h =
    let (xs, e) = to_transfers_valid dto.credit_transfers h in
    let (payable, same) = to_transfers-IsPayable dto.credit_transfers xs e in
    (
      record {
        organization_bic = dto.organization_bic;
        organization_iban = dto.organization_iban;
        credit_transfers = xs;
        idempotency_key = idempotency_key_of hash_body header_key raw_body;
      },
      rw e refl,
      payable,
      same,
      λ ne. elim (Bool-cases (header_key == "")) [
        | inl same ↦ elim (ne ((eq_iff header_key "").0 same)) [ ]
        | inr other ↦ rw other refl
      ],
      λ eq. rw eq refl,
    )

module _ {S : Type 0} (lib : Library) (svc : Service S) where
  -- A response 400 that has changed nothing, counted once as an invalid payload.
  abbrev pub IsRejected : S → Handled S → Type 0
  IsRejected s h =
      (h.state ≡ s)
      × (h.written.status ≡ pos 400)
      × (h.metrics ≡ bulk_transfers_total "invalid_payload" ∷ [])

  -- The response of the business layer to a request with payable amounts.
  abbrev pub IsSubmitted : Context → S → Handled S → Type 0
  IsSubmitted ctx s h =
      (req : BulkTransferRequest) × All IsPayable req.credit_transfers
      × (let (result, s') = svc.submit_bulk_transfer ctx req s in
          (h.written ≡ reply result) × (h.metrics ≡ record_outcome req result) × (h.state ≡ s'))

  submits-converted :
      (ctx : Context) (s : S) (c : Converted BulkTransferRequest)
      → ((req : BulkTransferRequest) → c ≡ done req → All IsPayable req.credit_transfers)
      → IsRejected s (submit_converted lib svc ctx c s)
        ⊎ IsSubmitted ctx s (submit_converted lib svc ctx c s)
  unfolding submit_converted reject record_rejection
  submits-converted ctx s (refused e) h = inl (refl, refl, refl)
  submits-converted ctx s (done req) h = inr (req, h req refl, (refl, refl, refl))

  request_of-IsPayable :
      (dto : BulkTransferRequestDto) (key : String) (c : Converted (List CreditTransfer))
      → ((xs : List CreditTransfer) → c ≡ done xs → All IsPayable xs)
      → (req : BulkTransferRequest) → request_of dto key c ≡ done req
      → All IsPayable req.credit_transfers
  request_of-IsPayable dto key (refused e) h req q = cc
  request_of-IsPayable dto key (done xs) h req q =
      let same : xs ≡ req.credit_transfers = cc q in subst (All IsPayable) same (h xs refl)

  submits-checked :
      (r : SubmitRequest) (s : S) (body : Bytes) (dto : BulkTransferRequestDto)
      (v : Option ValidationError)
      → let h = submit_checked lib svc r body dto v s in IsRejected s h ⊎ IsSubmitted r.ctx s h
  unfolding submit_checked reject record_rejection write_error format_validation_error
      to_domain_request
  submits-checked r s body dto (some (ValidationError.fields fs)) = inl (refl, refl, refl)
  submits-checked r s body dto (some ValidationError.invalid) = inl (refl, refl, refl)
  submits-checked r s body dto none =
      submits-converted r.ctx s (to_domain_request lib.hash_body dto r.idempotency_key body) (
        request_of-IsPayable dto (idempotency_key_of lib.hash_body r.idempotency_key body)
          (to_transfers dto.credit_transfers)
          (λ xs q. (to_transfers-IsPayable dto.credit_transfers xs q).0))

  submits-decoded :
      (r : SubmitRequest) (s : S) (body : Bytes) (o : Option BulkTransferRequestDto)
      → let h = submit_decoded lib svc r body o s in IsRejected s h ⊎ IsSubmitted r.ctx s h
  unfolding submit_decoded reject record_rejection write_error
  submits-decoded r s body none = inl (refl, refl, refl)
  submits-decoded r s body (some dto) =
      submits-checked r s body dto (lib.validate validate_amount dto)

  submits-read :
      (r : SubmitRequest) (s : S) (b : Option Bytes)
      → r.body ≡ b
      → let h = handle_submit_bulk_transfer lib svc r s in IsRejected s h ⊎ IsSubmitted r.ctx s h
  unfolding handle_submit_bulk_transfer reject record_rejection write_error
  submits-read r s none e = rw e (inl (refl, refl, refl))
  submits-read r s (some body) e = rw e (submits-decoded r s body (lib.unmarshal body))

  -- Whatever the request, either it is answered 400, counted once as an invalid payload and leaves
  -- the state alone, or the business layer was given amounts between one cent and the largest
  -- int64, and its result is what is written and counted.
  pub handle_submit_cases :
      (r : SubmitRequest) (s : S)
      → IsRejected s (handle_submit_bulk_transfer lib svc r s)
        ⊎ IsSubmitted r.ctx s (handle_submit_bulk_transfer lib svc r s)
  handle_submit_cases r s = submits-read r s r.body refl
