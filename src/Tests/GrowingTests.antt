-- ===== src/Tests/GrowingTests.antt =====
-- A history that gets a row between two requests.
use qonto.Prelude.{ℕ, zero, suc, ◌≡◌, refl, List, [], ◌∷◌, ◌++◌, All, arith}
use qonto.Prelude.Int.{pos}
use qonto.Go.Errors.{ok, other}
use qonto.Go.Action.{fail}
use qonto.Model.Pagination.{TransactionHistoryItem}
use qonto.Service.Interfaces.{Repository}
use qonto.Service.History.Pages.{IsDescending, select_page}
use qonto.Service.History.Walk.{IsNamed, walk}
use qonto.Service.History.Growing.{growing_walk_lists_all}
use qonto.Tests.Sample.{item, items, no_context}

-- Three rows at the first request, four from then on.
abbrev rows_at : ℕ → List TransactionHistoryItem
rows_at zero = items
rows_at (suc _) = item 4 30 ∷ items

abbrev growing : Repository ℕ
growing = record {
  advisory_lock = λ _ _. fail (other "not here");
  find_idempotency_record_status = λ _ _. fail (other "not here");
  record_idempotency = λ _ _ _. fail (other "not here");
  find_account_for_update = λ _ _ _. fail (other "not here");
  debit_account = λ _ _ _. fail (other "not here");
  insert_batch = λ _ _ _ _. fail (other "not here");
  insert_transactions = λ _ _ _ _. fail (other "not here");
  transaction_history_page = λ _ _ cursor n s. (ok (select_page (rows_at s) cursor n), 1);
}

rows_at-IsDescending : (s : ℕ) → IsDescending (rows_at s)
rows_at-IsDescending zero = ((refl, (refl, tt)), ((refl, tt), (tt, tt)))
rows_at-IsDescending (suc _) =
    ((refl, (refl, (refl, tt))), ((refl, (refl, tt)), ((refl, tt), (tt, tt))))

rows_at-IsNamed : (s : ℕ) → All IsNamed (rows_at s)
rows_at-IsNamed zero = (
  ((omega arith, omega arith), (omega arith, omega arith)),
  (
    ((omega arith, omega arith), (omega arith, omega arith)),
    (((omega arith, omega arith), (omega arith, omega arith)), tt),
  ),
)
rows_at-IsNamed (suc _) = (
  ((omega arith, omega arith), (omega arith, omega arith)),
  (
    ((omega arith, omega arith), (omega arith, omega arith)),
    (
      ((omega arith, omega arith), (omega arith, omega arith)),
      (((omega arith, omega arith), (omega arith, omega arith)), tt),
    ),
  ),
)

-- What has been added by the second request.
abbrev added : (s : ℕ) → List TransactionHistoryItem
added zero = item 4 30 ∷ []
added (suc _) = []

growing_walk_lists_all_example :
    (s' : ℕ) × (walk growing no_context (pos 1) 2 4 [] 0 ≡ (ok items, s'))
growing_walk_lists_all_example =
    growing_walk_lists_all growing no_context (pos 1) 2 (omega arith) rows_at rows_at-IsDescending
      rows_at-IsNamed (λ c cursor n s. (1, refl, (added s, grown s))) 0
  where
    grown : (s : ℕ) → rows_at 1 ≡ added s ++ rows_at s
    grown zero = refl
    grown (suc _) = refl
