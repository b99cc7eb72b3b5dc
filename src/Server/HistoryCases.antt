-- ===== src/Server/HistoryCases.antt =====
-- Which history requests reach the business layer, and what becomes of its rows.
use qonto.Prelude.{
  ℕ, ◌≤◌, String, ◌≡◌, refl, ◌⊎◌, inl, inr, Bytes, Option, none, some, [], ◌∷◌, arith,
}
use qonto.Prelude.Int.{ℤ, pos}
use qonto.Go.Strconv.{parse_int}
use qonto.Go.Time.{Time}
use qonto.Go.Errors.{error_of}
use qonto.Server.Response.{write_error}
use qonto.Server.Handler.{Service, Handled}
use qonto.Server.HistoryHandler.{
  HistoryRequest, limit_in_range, limit_of, reply_page, list_page, list_account,
  handle_list_transaction_history,
}

limit_in_range-bounds : (o : Option ℤ) (n : ℕ) → limit_in_range o ≡ some n → (1 ≤ n) × (n ≤ 100)
limit_in_range-bounds none n h = cc
limit_in_range-bounds (some p) n h = ground arith

limit_of-bounds : (raw : Bytes) (n : ℕ) → limit_of raw ≡ some n → (1 ≤ n) × (n ≤ 100)
unfolding limit_of
limit_of-bounds [] n h = ground arith
limit_of-bounds (c ∷ raw) n h = limit_in_range-bounds (parse_int 64 (c ∷ raw)) n h

module _ (format_time : Time → String) {S : Type 0} (svc : Service S) where
  -- A response 400 that has changed nothing.
  abbrev pub IsBadRequest : S → Handled S → Type 0
  IsBadRequest s h = (h.written.status ≡ pos 400) × (h.failure ≡ none) × (h.state ≡ s)

  -- The answer of the business layer, asked for 1 to 100 rows of the account that the path names.
  abbrev pub IsListed : HistoryRequest → S → Handled S → Type 0
  IsListed r s h =
      (account_id : ℤ) × (limit : ℕ) × (parse_int 64 r.id ≡ some account_id)
      × (1 ≤ limit)
      × (limit ≤ 100)
      × (let (page, s') = svc.list_transaction_history r.ctx account_id r.cursor limit s in
          (h.written ≡ reply_page format_time page) × (h.failure ≡ error_of page) × (h.state ≡ s'))

  lists_page :
      (r : HistoryRequest) (account_id : ℤ) (s : S) (o : Option ℕ)
      → parse_int 64 r.id ≡ some account_id
      → limit_of r.limit ≡ o
      → let h = list_page format_time svc r account_id o s in IsBadRequest s h ⊎ IsListed r s h
  unfolding list_page write_error
  lists_page r account_id s none e l = inl (refl, refl, refl)
  lists_page r account_id s (some limit) e l =
      let (low, high) = limit_of-bounds r.limit limit l in
      inr (account_id, limit, e, low, high, (refl, refl, refl))

  lists_account :
      (r : HistoryRequest) (s : S) (o : Option ℤ)
      → parse_int 64 r.id ≡ o
      → let h = list_account format_time svc r o s in IsBadRequest s h ⊎ IsListed r s h
  unfolding list_account write_error
  lists_account r s none e = inl (refl, refl, refl)
  lists_account r s (some account_id) e = lists_page r account_id s (limit_of r.limit) e refl

  -- Whatever the request, either it is answered 400 and the business layer is not asked, or it is
  -- asked for 1 to 100 rows of the account named by the path, and its answer is what is written.
  pub handle_list_cases :
      (r : HistoryRequest) (s : S)
      → let h = handle_list_transaction_history format_time svc r s in
        IsBadRequest s h ⊎ IsListed r s h
  unfolding handle_list_transaction_history
  handle_list_cases r s = lists_account r s (parse_int 64 r.id) refl
