-- ===== src/Program/Runs.antt =====
-- Submissions of the program on an engine, one after the other: what they keep of the tables.
use qonto.Prelude.{◌≡◌, sym, ap, ◌∙◌, inl, inr, none}
use mathlib.Core.Path.{subst}
use qonto.Prelude.Int.{ℤ}
use qonto.Go.Int64.{IsInt64}
use qonto.Go.Errors.{Result, ok, err}
use qonto.Go.Context.{Context}
use qonto.Model.Transfer.{BulkTransferRequest}
use qonto.Model.Transfer.Total.{exact_total}
use qonto.Database.Schema.{Tables, status_of, IsKeyed}
use qonto.Database.Engine.{Engine}
use qonto.Database.Laws.{IsPostgres}
use qonto.Service.Submit.{Response, status_created}
use qonto.Service.Contract.{SettledAt}
use qonto.Service.Outcome.{Submitted}
use qonto.Service.Once.{Reached, start, next}
use qonto.Service.Funds.{IsSound, Balances, balanced_ledger}
use qonto.Service.Batches.{IsBooked, one_batch_per_key}
use qonto.Service.Verdict.{Posted, Submitted-verdict, accepted_posts}
use qonto.Txn.Laws.{view}
use qonto.Program.{submit, submit_settles}

-- Any number of submissions, each from the state that the last one left, whatever it returned.
pub data Ran (e : Engine) (s : e.State) : e.State → Type 0 where
  none_yet : Ran e s s
  and_then :
      {s1 : e.State}
      → Ran e s s1
      → (ctx : Context) (req : BulkTransferRequest) → Ran e s (submit e ctx req s1).1

module _ (e : Engine) (postgres : IsPostgres e) where
  settled-Reached :
      (t : Tables) (s : e.State) (req : BulkTransferRequest) (x : Result Response × e.State)
      → Reached t (e.committed s)
      → SettledAt (view e) s (Submitted req (e.committed s)) x
      → Reached t (e.committed x.1)
  settled-Reached t s req (ok r, s') before h = next before h
  settled-Reached t s req (err x, s') before (inl same) = subst (Reached t) (sym same) before
  settled-Reached t s req (err x, s') before (inr (r, h)) = next before h

  Ran-Reached : {s s' : e.State} → Ran e s s' → Reached (e.committed s) (e.committed s')
  Ran-Reached none_yet = start
  Ran-Reached {s} (and_then {s1} runs ctx req) =
      settled-Reached (e.committed s) s1 req (submit e ctx req s1) (Ran-Reached runs)
        (submit_settles e postgres ctx req s1).holds

  -- On an engine that keeps PostgreSQL's documented behaviour, from committed tables with unique
  -- account ids and no account in the red, any number of calls of SubmitBulkTransfer, whatever they
  -- return, leave unique ids and no account in the red, and the balance of an account and the
  -- batches debited from it add up to what they added up to before.
  pub runs_balance :
      {s s' : e.State} (id worth : ℤ)
      → Ran e s s'
      → IsSound (e.committed s)
      → Balances id worth (e.committed s)
      → IsSound (e.committed s') × Balances id worth (e.committed s')
  runs_balance id worth runs = balanced_ledger id worth (Ran-Reached runs)

  -- On an engine that keeps PostgreSQL's documented behaviour, from committed tables where every key
  -- with a recorded 204 has one batch and every other key none, any number of calls of
  -- SubmitBulkTransfer, whatever they return, keep it so: no key ever has two batches, and no batch
  -- is without its record.
  pub runs_book_once :
      {s s' : e.State} → Ran e s s' → IsBooked (e.committed s) → IsBooked (e.committed s')
  runs_book_once runs booked = one_batch_per_key booked (Ran-Reached runs)

  -- On an engine that keeps PostgreSQL's documented behaviour, a call of SubmitBulkTransfer under a
  -- key that is not recorded, where account ids are unique and the exact sum of the amounts fits an
  -- int64. If it answers 204, then the committed tables have one new batch with that sum, one new row
  -- for each transfer, in order and with its data, and the key with 204, and the account has lost
  -- the sum of the rows' amounts.
  pub submission_posts :
      (ctx : Context) (req : BulkTransferRequest) (s s' : e.State) (r : Response)
      → IsKeyed (e.committed s).accounts
      → IsInt64 (exact_total req.credit_transfers)
      → status_of req.idempotency_key (e.committed s).keys ≡ none
      → submit e ctx req s ≡ (ok r, s')
      → r.status_code ≡ status_created
      → Posted req (e.committed s) (e.committed s')
  submission_posts ctx req s s' r keyed fits fresh returned created =
      let h : Submitted req (e.committed s) r (e.committed s') =
        subst (SettledAt (view e) s (Submitted req (e.committed s))) returned
          (submit_settles e postgres ctx req s).holds in
      accepted_posts keyed fits fresh
        (sym (ap (λ (x : Response). x.status_code) (Submitted-verdict h)) ∙ created) h
