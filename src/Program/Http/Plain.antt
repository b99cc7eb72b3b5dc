-- ===== src/Program/Http/Plain.antt =====
-- A request to the program with its telemetry against the plain handler on the plain program.
use qonto.Prelude.{
  ℕ, String, Bytes, ◌≡◌, refl, ap, Option, none, some, List, [], ◌++◌, append-nil_right,
}
use qonto.Prelude.Int.{ℤ}
use qonto.Go.Errors.{error_of}
use qonto.Go.Time.{Time}
use qonto.Go.Context.{Context}
use qonto.Go.Strconv.{parse_int}
use qonto.Model.Transfer.{BulkTransferRequest}
use qonto.Platform.World.{Emission, World}
use qonto.Platform.Middleware.{HttpRequest}
use qonto.Server.Dto.{
  BulkTransferRequestDto, Converted, done, refused, validate_amount, to_domain_request,
}
use qonto.Server.Metrics.{record_outcome}
use qonto.Server.Response.{ValidationError}
use qonto.Server.Handler.{
  Service, Library, SubmitRequest, Handled, reply, reject, submit_converted, submit_checked,
  submit_decoded, handle_submit_bulk_transfer,
}
use qonto.Server.HistoryHandler.{
  HistoryRequest, limit_of, reply_page, list_page, list_account, handle_list_transaction_history,
}
use qonto.Server.Routes.{Endpoint, submit_endpoint, history_endpoint}
use qonto.Server.Http.{endpoint_handled}

module _ {S : Type 0} where
  -- The result and the state of `y`, and more telemetry.
  abbrev pub AsPlain : {A : Type 0} → World S → A × World S → A × S → Type 0
  AsPlain w x y =
      (x.0 ≡ y.0) × (x.1.state ≡ y.1) × ((xs : List Emission) × (x.1.emitted ≡ w.emitted ++ xs))

  -- The same response, metrics, error and state, and more telemetry.
  abbrev pub SameHandled : World S → Handled (World S) → Handled S → Type 0
  SameHandled w h k =
      (h.written ≡ k.written)
      × (h.metrics ≡ k.metrics)
      × (h.failure ≡ k.failure)
      × (h.state.state ≡ k.state)
      × ((xs : List Emission) × (h.state.emitted ≡ w.emitted ++ xs))

  module _ (lib : Library) (format_time : Time → String) (svc : Service (World S))
      (plain : Service S)
      (submits : (ctx : Context) (req : BulkTransferRequest) (w : World S)
        → AsPlain w
            (svc.submit_bulk_transfer ctx req w)
            (plain.submit_bulk_transfer ctx req w.state))
      (lists : (ctx : Context) (id : ℤ) (cursor : Bytes) (limit : ℕ) (w : World S)
        → AsPlain w
            (svc.list_transaction_history ctx id cursor limit w)
            (plain.list_transaction_history ctx id cursor limit w.state)) where
    nothing : (w : World S) → (xs : List Emission) × (w.emitted ≡ w.emitted ++ xs)
    nothing w = ([], append-nil_right w.emitted)

    same-converted :
        (ctx : Context) (c : Converted BulkTransferRequest) (w : World S)
        → SameHandled w
            (submit_converted lib svc ctx c w)
            (submit_converted lib plain ctx c w.state)
    unfolding submit_converted reject
    same-converted ctx (refused x) w = (refl, refl, refl, refl, nothing w)
    same-converted ctx (done req) w =
        let (p, q, more) = submits ctx req w in
        (ap reply p, ap (record_outcome req) p, ap error_of p, q, more)

    same-checked :
        (r : SubmitRequest) (body : Bytes) (dto : BulkTransferRequestDto)
        (v : Option ValidationError) (w : World S)
        → SameHandled w
            (submit_checked lib svc r body dto v w)
            (submit_checked lib plain r body dto v w.state)
    unfolding submit_checked reject
    same-checked r body dto (some x) w = (refl, refl, refl, refl, nothing w)
    same-checked r body dto none w =
        same-converted r.ctx (to_domain_request lib.hash_body dto r.idempotency_key body) w

    same-decoded :
        (r : SubmitRequest) (body : Bytes) (o : Option BulkTransferRequestDto) (w : World S)
        → SameHandled w
            (submit_decoded lib svc r body o w)
            (submit_decoded lib plain r body o w.state)
    unfolding submit_decoded reject
    same-decoded r body none w = (refl, refl, refl, refl, nothing w)
    same-decoded r body (some dto) w = same-checked r body dto (lib.validate validate_amount dto) w

    same-submit :
        (ctx : Context) (body : Option Bytes) (key : String) (w : World S)
        → let r : SubmitRequest = record { ctx = ctx; body = body; idempotency_key = key } in
          SameHandled w
            (handle_submit_bulk_transfer lib svc r w)
            (handle_submit_bulk_transfer lib plain r w.state)
    unfolding handle_submit_bulk_transfer reject
    same-submit ctx none key w = (refl, refl, refl, refl, nothing w)
    same-submit ctx (some body) key w =
        let r : SubmitRequest = record { ctx = ctx; body = some body; idempotency_key = key } in
        same-decoded r body (lib.unmarshal body) w

    same-page :
        (r : HistoryRequest) (id : ℤ) (o : Option ℕ) (w : World S)
        → SameHandled w
            (list_page format_time svc r id o w)
            (list_page format_time plain r id o w.state)
    unfolding list_page
    same-page r id none w = (refl, refl, refl, refl, nothing w)
    same-page r id (some limit) w =
        let (p, q, more) = lists r.ctx id r.cursor limit w in
        (ap (reply_page format_time) p, refl, ap error_of p, q, more)

    same-list :
        (r : HistoryRequest) (o : Option ℤ) (w : World S)
        → SameHandled w
            (list_account format_time svc r o w)
            (list_account format_time plain r o w.state)
    unfolding list_account
    same-list r none w = (refl, refl, refl, refl, nothing w)
    same-list r (some id) w = same-page r id (limit_of r.limit) w

    -- The handler of an endpoint over a service with telemetry does what it does over one without.
    pub same-endpoint :
        (endpoint : Endpoint) (id : Bytes) (span span' : ℕ) (r : HttpRequest) (w : World S)
        → SameHandled w
            (endpoint_handled lib format_time (λ _. svc) endpoint id span r w)
            (endpoint_handled lib format_time (λ _. plain) endpoint id span' r w.state)
    unfolding endpoint_handled handle_list_transaction_history
    same-endpoint submit_endpoint id span span' r w = same-submit r.ctx r.body r.idempotency_key w
    same-endpoint history_endpoint id span span' r w =
        same-list (record { ctx = r.ctx; id = id; limit = r.limit; cursor = r.cursor })
          (parse_int 64 id) w
