-- ===== src/Program/Retry.antt =====
-- A client that sends a request again: the handler over the service, the store and the transaction.
use qonto.Prelude.{◌≡◌, ◌≢◌, refl, ap, ◌⊎◌, inl, inr, Bytes, Option, none, some}
use qonto.Prelude.Int.{pos}
use qonto.Go.Errors.{Result, ok, err}
use qonto.Go.Context.{Context}
use qonto.Model.Transfer.{BulkTransferRequest}
use qonto.Database.Engine.{Engine}
use qonto.Database.Laws.{IsPostgres}
use qonto.Service.Submit.{Response}
use qonto.Service.History.{list_transaction_history}
use qonto.Service.Contract.{Settled}
use qonto.Service.Outcome.{Submitted}
use qonto.Service.Once.{Reached, exactly_once}
use qonto.Store.Laws.{repository}
use qonto.Txn.Laws.{view}
use qonto.Program.{submit, submit_settles}
use qonto.Server.Dto.{
  BulkTransferRequestDto, Converted, done, refused, validate_amount, to_domain_request,
}
use qonto.Server.Response.{ValidationError, write_error}
use qonto.Server.Handler.{
  Service, Library, SubmitRequest, Handled, reply, reject, submit_converted, submit_checked,
  submit_decoded, handle_submit_bulk_transfer,
}

abbrev pub service : (e : Engine) → Service e.State
service e = record {
  submit_bulk_transfer = submit e;
  list_transaction_history = list_transaction_history (repository e);
}

module _ (e : Engine) where
  -- Of two attempts at most one changes the committed tables. Where neither is answered 500, the
  -- second changes nothing, and is answered as the first.
  abbrev pub IsOnce : e.State → e.State → Handled e.State → Handled e.State → Type 0
  IsOnce s s2 h h' =
      ((e.committed h.state ≡ e.committed s) ⊎ (e.committed h'.state ≡ e.committed s2))
      × (h.written.status ≢ pos 500
          → h'.written.status ≢ pos 500
          → (h'.written ≡ h.written) × (e.committed h'.state ≡ e.committed s2))

  -- The same for two calls of the service.
  abbrev OnceSettled :
      e.State → e.State → Result Response × e.State → Result Response × e.State → Type 0
  OnceSettled s s2 (r, s1) (r', s3) =
      ((e.committed s1 ≡ e.committed s) ⊎ (e.committed s3 ≡ e.committed s2))
      × ((reply r).status ≢ pos 500
          → (reply r').status ≢ pos 500
          → (reply r' ≡ reply r) × (e.committed s3 ≡ e.committed s2))

  Settled-OnceSettled :
      (req : BulkTransferRequest) (s s2 : e.State) (x x' : Result Response × e.State)
      → Settled (view e) s (Submitted req (e.committed s)) x
      → Settled (view e) s2 (Submitted req (e.committed s2)) x'
      → Reached (e.committed x.1) (e.committed s2)
      → OnceSettled s s2 x x'
  unfolding reply write_error
  Settled-OnceSettled req s s2 (ok a, s1) (ok a', s3) h h' between =
      let (same, again) = exactly_once h.holds between refl h'.holds in
      (inr same, λ p q. (ap (λ (r : Response). reply (ok r)) again, same))
  Settled-OnceSettled req s s2 (ok a, s1) (err x, s3) h h' between = elim h'.holds [
    | inl unchanged ↦ (inr unchanged, λ p q. elim (q refl) [ ])
    | inr (a', lost) ↦ (inr (exactly_once h.holds between refl lost).0, λ p q. elim (q refl) [ ])
  ]
  Settled-OnceSettled req s s2 (err x, s1) (r, s3) h h' between = elim h.holds [
    | inl unchanged ↦ (inl unchanged, λ p q. elim (p refl) [ ])
    | inr (a, lost) ↦ (later a r s3 lost h', λ p q. elim (p refl) [ ])
  ]
    where
      later :
          (a : Response) (r : Result Response) (s3 : e.State)
          → Submitted req (e.committed s) a (e.committed s1)
          → Settled (view e) s2 (Submitted req (e.committed s2)) (r, s3)
          → (e.committed s1 ≡ e.committed s) ⊎ (e.committed s3 ≡ e.committed s2)
      later a (ok a') s3 lost h' = inr (exactly_once lost between refl h'.holds).0
      later a (err y) s3 lost h' = elim h'.holds [
        | inl unchanged ↦ inr unchanged
        | inr (a', again) ↦ inr (exactly_once lost between refl again).0
      ]

  module _ (p : IsPostgres e) (lib : Library) (s s2 : e.State) where
    converted-IsOnce :
        (ctx ctx' : Context) (c : Converted BulkTransferRequest)
        → let h = submit_converted lib (service e) ctx c s in
          Reached (e.committed h.state) (e.committed s2)
          → IsOnce s s2 h (submit_converted lib (service e) ctx' c s2)
    unfolding submit_converted reject
    converted-IsOnce ctx ctx' (refused x) between = (inl refl, λ p q. (refl, refl))
    converted-IsOnce ctx ctx' (done req) between =
        Settled-OnceSettled req s s2 (submit e ctx req s) (submit e ctx' req s2)
          (submit_settles e p ctx req s) (submit_settles e p ctx' req s2) between

    module _ (r r' : SubmitRequest) (same : r'.idempotency_key ≡ r.idempotency_key) where
      checked-IsOnce :
          (body : Bytes) (dto : BulkTransferRequestDto) (v : Option ValidationError)
          → let h = submit_checked lib (service e) r body dto v s in
            Reached (e.committed h.state) (e.committed s2)
            → IsOnce s s2 h (submit_checked lib (service e) r' body dto v s2)
      unfolding submit_checked reject
      checked-IsOnce body dto (some x) between = (inl refl, λ p q. (refl, refl))
      checked-IsOnce body dto none between = rw same (
          converted-IsOnce r.ctx r'.ctx (to_domain_request lib.hash_body dto r.idempotency_key body)
            between)

      decoded-IsOnce :
          (body : Bytes) (o : Option BulkTransferRequestDto)
          → let h = submit_decoded lib (service e) r body o s in
            Reached (e.committed h.state) (e.committed s2)
            → IsOnce s s2 h (submit_decoded lib (service e) r' body o s2)
      unfolding submit_decoded reject
      decoded-IsOnce body none between = (inl refl, λ p q. (refl, refl))
      decoded-IsOnce body (some dto) between =
          checked-IsOnce body dto (lib.validate validate_amount dto) between

-- On an engine with PostgreSQL's documented behaviour, a request is sent again with the same body
-- and header after any number of other submissions. Of the two attempts at most one changes the
-- committed tables, also where the first was answered 500 and its commit may or may not have
-- happened. Where neither is answered 500 the second has the response of the first.
pub retry_safe :
    (e : Engine)
    → IsPostgres e
    → (lib : Library) (r r' : SubmitRequest) (s s2 : e.State) (body : Bytes) → r.body ≡ some body
    → r'.body ≡ some body
    → r'.idempotency_key ≡ r.idempotency_key
    → Reached (e.committed (handle_submit_bulk_transfer lib (service e) r s).state) (e.committed s2)
    → IsOnce e s s2
        (handle_submit_bulk_transfer lib (service e) r s)
        (handle_submit_bulk_transfer lib (service e) r' s2)
unfolding handle_submit_bulk_transfer
retry_safe e p lib r r' s s2 body h h' same =
    rw (h, h') (decoded-IsOnce e p lib s s2 r r' same body (lib.unmarshal body))
