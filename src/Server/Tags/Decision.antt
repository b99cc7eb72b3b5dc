-- ===== src/Server/Tags/Decision.antt =====
-- Which bodies are answered 400, and which reach the business layer, by the tags alone.
use mathlib.Core.Path.{subst}
use text.Mathlib.TextEquality.{eq_iff}
use qonto.Prelude.{
  ◌<◌, String, Bool, true, false, ◌&&◌, ◌≡◌, refl, sym, ap, ◌∙◌, Bytes, Option, none, some, List,
  [], ◌∷◌, All, length, arith,
}
use qonto.Prelude.Int.{pos}
use qonto.Model.Transfer.{CreditTransfer, BulkTransferRequest}
use qonto.Model.Transfer.Total.{IsPayable}
use qonto.Model.Money.{parse_amount_cents}
use qonto.Server.Dto.{
  CreditTransferDto, BulkTransferRequestDto, Converted, done, refused, request_of, validate_amount,
  to_transfers, to_domain_request,
}
use qonto.Server.Metrics.{record_outcome, record_rejection}
use qonto.Server.Response.{ValidationError, write_error, format_validation_error}
use qonto.Server.Handler.{
  Service, Library, SubmitRequest, Handled, reply, submit_checked, submit_decoded, submit_converted,
  reject, handle_submit_bulk_transfer,
}
use qonto.Server.Rejection.{converted, to_domain_request_valid, IsRejected}
use qonto.Server.Tags.{transfer_conforms, all_conform, some_conform, conforms}

both : (a b : Bool) → a && b ≡ true → (a ≡ true) × (b ≡ true)
both true b h = (refl, h)
both false b h = cc

abbrev IsEuro : CreditTransferDto → Type 0
IsEuro t = t.currency ≡ "EUR"

abbrev HasAmount : CreditTransferDto → Type 0
HasAmount t = validate_amount t.amount ≡ true

transfer_conforms-parts :
    (t : CreditTransferDto) → transfer_conforms validate_amount t ≡ true → HasAmount t × IsEuro t
unfolding transfer_conforms
transfer_conforms-parts t h =
    let (a, rest) = both (validate_amount t.amount) _ h in
    let (_, rest) = both _ _ rest in
    let (e, _) = both _ _ rest in (a, (eq_iff t.currency "EUR").0 e)

all_conform-parts :
    (ts : List CreditTransferDto)
    → all_conform validate_amount ts ≡ true
    → All HasAmount ts × All IsEuro ts
all_conform-parts [] h = (tt, tt)
all_conform-parts (t ∷ ts) h =
    let (first, rest) = both (transfer_conforms validate_amount t) _ h in
    let (a, e) = transfer_conforms-parts t first in
    let (more, others) = all_conform-parts ts rest in ((a, more), (e, others))

some_conform-parts :
    (ts : List CreditTransferDto)
    → some_conform validate_amount ts ≡ true
    → All HasAmount ts × All IsEuro ts × (0 < length ts)
some_conform-parts [] h = cc
some_conform-parts (t ∷ ts) h = let (a, e) = all_conform-parts (t ∷ ts) h in (a, e, omega arith)

abbrev pub InEuro : CreditTransfer → Type 0
InEuro t = t.currency ≡ "EUR"

to_transfers-InEuro :
    (ts : List CreditTransferDto) (xs : List CreditTransfer)
    → to_transfers ts ≡ done xs
    → All IsEuro ts
    → All InEuro xs
unfolding to_transfers
to_transfers-InEuro [] xs h e = let same : xs ≡ [] = cc h in subst (All InEuro) (sym same) tt
to_transfers-InEuro (t ∷ ts) xs h (e, es) =
    let (c, ys, _, rest, same) = converted t (parse_amount_cents t.amount) (to_transfers ts) xs h in
    subst (All InEuro) (sym same) (e, to_transfers-InEuro ts ys rest es)

requested :
    (dto : BulkTransferRequestDto) (key : String) (c : Converted (List CreditTransfer))
    (req : BulkTransferRequest)
    → request_of dto key c ≡ done req
    → c ≡ done req.credit_transfers
requested dto key (refused e) req h = cc
requested dto key (done xs) req h = let same : xs ≡ req.credit_transfers = cc h in ap done same

-- The validator's answer is the one that the tags ask for.
abbrev pub IsVerdict : Bool → Option ValidationError → Type 0
IsVerdict true v = v ≡ none
IsVerdict false v = (e : ValidationError) × (v ≡ some e)

abbrev pub HonoursTags : Library → Type 0
HonoursTags lib =
    (amount : Bytes → Bool) (dto : BulkTransferRequestDto)
    → IsVerdict (conforms amount dto) (lib.validate amount dto)

module _ {S : Type 0} (lib : Library) (svc : Service S) where
  -- The business layer got the converted body: at least one transfer, every one in euros and of at
  -- least one cent. Its result is what is written and counted.
  abbrev pub IsForwarded : SubmitRequest → Bytes → BulkTransferRequestDto → S → Handled S → Type 0
  IsForwarded r body dto s h =
      (req : BulkTransferRequest) × (to_domain_request lib.hash_body dto r.idempotency_key body
        ≡ done req)
      × All IsPayable req.credit_transfers
      × All InEuro req.credit_transfers
      × (0 < length req.credit_transfers)
      × (let (result, s') = svc.submit_bulk_transfer r.ctx req s in
          (h.written ≡ reply result) × (h.metrics ≡ record_outcome req result) × (h.state ≡ s'))

  abbrev pub IsDecided :
      Bool → SubmitRequest → Bytes → BulkTransferRequestDto → S → Handled S → Type 0
  IsDecided true r body dto s h = IsForwarded r body dto s h
  IsDecided false r body dto s h = IsRejected lib svc s h

  forwards :
      (r : SubmitRequest) (body : Bytes) (dto : BulkTransferRequestDto) (s : S)
      → conforms validate_amount dto ≡ true
      → IsForwarded r body dto s (
          submit_converted lib svc r.ctx
            (to_domain_request lib.hash_body dto r.idempotency_key body)
            s)
  unfolding conforms submit_converted to_domain_request
  forwards r body dto s h =
      let (valid, euros, some_there) = some_conform-parts dto.credit_transfers (both _ _ h).0 in
      let (req, e, payable, same, _, _) =
        to_domain_request_valid lib.hash_body dto r.idempotency_key body valid in
      (
        req,
        e,
        payable,
        to_transfers-InEuro dto.credit_transfers req.credit_transfers (requested dto _ _ req e)
            euros,
        rw same some_there,
        rw e (refl, refl, refl),
      )

  decides :
      (b : Bool) (v : Option ValidationError) (r : SubmitRequest) (body : Bytes)
      (dto : BulkTransferRequestDto) (s : S)
      → IsVerdict b v
      → conforms validate_amount dto ≡ b
      → IsDecided b r body dto s (submit_checked lib svc r body dto v s)
  unfolding submit_checked reject record_rejection write_error format_validation_error
  decides true v r body dto s e h = rw e (forwards r body dto s h)
  decides false v r body dto s (ValidationError.fields fs, e) h = rw e (refl, refl, refl)
  decides false v r body dto s (ValidationError.invalid, e) h = rw e (refl, refl, refl)

  read_as :
      (r : SubmitRequest) (body : Bytes) (dto : BulkTransferRequestDto) (s : S)
      → r.body ≡ some body
      → lib.unmarshal body ≡ some dto
      → handle_submit_bulk_transfer lib svc r s
        ≡ submit_checked lib svc r body dto (lib.validate validate_amount dto) s
  unfolding handle_submit_bulk_transfer submit_decoded
  read_as r body dto s p q =
      ap
        (λ (b : Option Bytes). elim b [
          | none ↦ reject (write_error (pos 400) "could not read request body" []) s
          | some x ↦ submit_decoded lib svc r x (lib.unmarshal x) s
        ])
        p
      ∙ ap (λ o. submit_decoded lib svc r body o s) q

  -- The validator accepts what conforms to the tags and refuses all else, and the body of a request
  -- was read and is the JSON of a DTO. If the DTO conforms, the business layer gets it converted, at
  -- least one transfer, every one in euros and between one cent and the largest int64, and its
  -- result is what is written and counted: the error of the conversion never occurs. If it does not
  -- conform, the request is answered 400, counted once as an invalid payload, and changes nothing.
  pub handle_submit_decision :
      HonoursTags lib
      → (r : SubmitRequest) (body : Bytes) (dto : BulkTransferRequestDto) (s : S)
      → r.body ≡ some body
      → lib.unmarshal body ≡ some dto
      → IsDecided
          (conforms validate_amount dto)
          r
          body
          dto
          s
          (handle_submit_bulk_transfer lib svc r s)
  handle_submit_decision honours r body dto s p q =
      subst (IsDecided (conforms validate_amount dto) r body dto s) (sym (read_as r body dto s p q))
        (decides (conforms validate_amount dto) (lib.validate validate_amount dto) r body dto s
          (honours validate_amount dto) refl)
