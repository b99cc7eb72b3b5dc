-- ===== src/Service/History/Walk.antt =====
-- Following the cursors from page to page.
use qonto.Prelude.{
  ℕ, zero, suc, ◌+◌, ◌<◌, ◌≡◌, refl, ap, ◌∙◌, inl, inr, Bool-cases, true, false, Bytes, some, List,
  [], ◌++◌, length, take, drop, last?, ltb, if◌then◌else◌, All, All-take, All-drop, length-take,
  length-drop, arith, past, last-exists, last-take-drop, drop-drop, take-append-drop, take-take,
}
use qonto.Prelude.Int.{ℤ}
use qonto.Go.Int64.{IsInt64}
use qonto.Go.Errors.{ok, other}
use qonto.Go.Action.{Action, pure, fail, ◌>>=◌}
use qonto.Go.Context.{Context, with_phase}
use qonto.Go.Time.{Time, is_zero}
use qonto.Model.Pagination.{TransactionHistoryItem, Cursor, zero_cursor, decode_cursor}
use qonto.Model.Pagination.RoundTrip.{decode_cursor-encode_cursor}
use qonto.Service.Interfaces.{Repository}
use qonto.Service.History.{
  TransactionHistoryPage, cursor_at, next_cursor_of, page_of, list_from, list_transaction_history,
}
use qonto.Service.History.Pages.{
  keep, IsDescending, select_page, keep-drop, page_of-take, take_all, last-All,
}

-- A row that a cursor can name: its time and its id fit an int64.
abbrev pub IsNamed : TransactionHistoryItem → Type 0
IsNamed i = IsInt64 i.created_at × IsInt64 i.id

module _ {S : Type 0} where
  -- The rows of a page, and those that `rest` lists if there are more.
  abbrev pub follow :
      TransactionHistoryPage
      → Action S (List TransactionHistoryItem)
      → Action S (List TransactionHistoryItem)
  follow page rest =
      if page.has_more then (rest >>= λ items. pure (page.items ++ items)) else pure page.items

  pub follow-more :
      (page : TransactionHistoryPage) (rest : Action S (List TransactionHistoryItem))
      (items : List TransactionHistoryItem) (s : S) {s' : S}
      → page.has_more ≡ true
      → rest s ≡ (ok items, s')
      → follow page rest s ≡ (ok (page.items ++ items), s')
  follow-more page rest items s h e =
      rw h (ap (λ x. ((λ (_ : S). x) >>= (λ more. pure (page.items ++ more))) s) e)

  pub follow-last :
      (page : TransactionHistoryPage) (rest : Action S (List TransactionHistoryItem)) (s : S)
      → page.has_more ≡ false
      → follow page rest s ≡ (ok page.items, s)
  follow-last page rest s h = rw h refl

-- What a client lists that asks for page after page, until there are no more.
module _ {S : Type 0} (repo : Repository S) (ctx : Context) (account_id : ℤ) (limit : ℕ) where
  unfoldable pub walk : ℕ → Bytes → Action S (List TransactionHistoryItem)
  walk zero cursor = fail (other "too many pages")
  walk (suc fuel) cursor = list_transaction_history repo ctx account_id cursor limit >>= λ page.
      follow page (walk fuel page.next_cursor)

pub is_zero-IsInt64 : (t : Time) → IsInt64 t → is_zero t ≡ false
unfolding is_zero
is_zero-IsInt64 t h = ground arith

-- The cursor of a page with more rows is that of its last row.
pub next_cursor_of-last :
    (items : List TransactionHistoryItem) (l : TransactionHistoryItem)
    → last? items ≡ some l
    → IsNamed l
    → decode_cursor (next_cursor_of true items) ≡ ok (cursor_at l)
unfolding next_cursor_of
next_cursor_of-last items l e (t, i) = rw e (decode_cursor-encode_cursor (cursor_at l) t i)

pub page_of-next_cursor :
    (limit : ℕ) (fetched : List TransactionHistoryItem)
    → ltb limit (length fetched) ≡ true
    → (page_of limit fetched).next_cursor ≡ next_cursor_of true (take limit fetched)
unfolding page_of
page_of-next_cursor limit fetched h = rw h refl

module _ (rows : List TransactionHistoryItem) (descending : IsDescending rows)
    (named : All IsNamed rows) {S : Type 0} (repo : Repository S) (ctx : Context) (account_id : ℤ)
    (limit : ℕ) (positive : 0 < limit)
    (reads : (c : Context) (cursor : Cursor) (n : ℕ) (s : S)
      → repo.transaction_history_page c account_id cursor n s
        ≡ (ok (select_page rows cursor n), s)) where
  -- The rows that are left after a cursor.
  abbrev left_after : Cursor → List TransactionHistoryItem
  left_after c = if is_zero c.created_at then rows else keep c rows

  listed :
      (cursor : Bytes) (c : Cursor) (s : S)
      → decode_cursor cursor ≡ ok c
      → list_transaction_history repo ctx account_id cursor limit s
        ≡ (ok (page_of limit (take (limit + 1) (left_after c))), s)
  unfolding list_transaction_history list_from
  listed cursor c s e = rw e (
      ap (λ x. ((λ (_ : S). x) >>= (λ items. pure (page_of limit items))) s)
        (reads (with_phase ctx "list_transaction_history") c (limit + 1) s))

  -- Behind the last row of a page come the rows that the page leaves.
  left_behind :
      (k : ℕ) (l : TransactionHistoryItem)
      → last? (take limit (drop k rows)) ≡ some l
      → IsNamed l
      → left_after (cursor_at l) ≡ drop (past k limit) rows
  left_behind k l e n =
      rw (is_zero-IsInt64 l.created_at n.0)
        (keep-drop (past k limit) rows l descending (last-take-drop k limit rows l e))

  -- The page behind which the rows from the k-th on are left.
  abbrev page_at : ℕ → TransactionHistoryPage
  page_at k = page_of limit (take (limit + 1) (drop k rows))

  page_at-items : (k : ℕ) → (page_at k).items ≡ take limit (drop k rows)
  page_at-items k =
      (page_of-take limit (take (limit + 1) (drop k rows))).0
      ∙ take-take limit (limit + 1) (drop k rows) (omega arith)

  page_at-has_more : (k : ℕ) → (page_at k).has_more ≡ ltb limit (length (drop k rows))
  page_at-has_more k =
      (page_of-take limit (take (limit + 1) (drop k rows))).2
      ∙ ground (arith, length-take (limit + 1) (drop k rows))

  page_at-next_cursor :
      (k : ℕ)
      → ltb limit (length (drop k rows)) ≡ true
      → (c : Cursor) × (decode_cursor (page_at k).next_cursor ≡ ok c)
        × (left_after c ≡ drop (past k limit) rows)
  page_at-next_cursor k more =
      let (l, e) = last-exists limit (drop k rows) positive more in
      let n : IsNamed l =
        last-All IsNamed (take limit (drop k rows)) l e
          (All-take IsNamed limit (drop k rows) (All-drop IsNamed k rows named)) in
      (
        cursor_at l,
        ap decode_cursor (
              page_of-next_cursor limit (take (limit + 1) (drop k rows))
                (ground (arith, length-take (limit + 1) (drop k rows)))
              ∙ ap (next_cursor_of true) (take-take limit (limit + 1) (drop k rows) (omega arith)))
            ∙ next_cursor_of-last (take limit (drop k rows)) l e n,
        left_behind k l e n,
      )

  shorter :
      (k fuel : ℕ)
      → length (drop k rows) < suc fuel
      → ltb limit (length (drop k rows)) ≡ true
      → length (drop (past k limit) rows) < fuel
  shorter k fuel h more =
      rw (drop-drop k limit rows) (ground (arith, length-drop limit (drop k rows), positive))

  walks :
      (fuel k : ℕ) (cursor : Bytes) (c : Cursor) (s : S)
      → decode_cursor cursor ≡ ok c
      → left_after c ≡ drop k rows
      → length (drop k rows) < fuel
      → walk repo ctx account_id limit fuel cursor s ≡ (ok (drop k rows), s)
  unfolding walk
  walks zero k cursor c s e left h = ground arith
  walks (suc fuel) k cursor c s e left h =
      ap
        (λ x.
          ((λ (_ : S). x)
              >>= (λ page. follow page (walk repo ctx account_id limit fuel page.next_cursor)))
            s)
        (listed cursor c s e ∙ ap (λ r. (ok (page_of limit (take (limit + 1) r)), s)) left)
      ∙ elim (Bool-cases (ltb limit (length (drop k rows)))) [
        | inl more ↦
            let (next, e', left') = page_at-next_cursor k more in
            follow-more (page_at k) (walk repo ctx account_id limit fuel (page_at k).next_cursor)
              (drop (past k limit) rows) s (page_at-has_more k ∙ more)
              (walks fuel (past k limit) (page_at k).next_cursor next s e' left'
                (shorter k fuel h more))
            ∙ ap (λ items. (ok items, s))
                (ap (λ items. items ++ drop (past k limit) rows) (page_at-items k)
                  ∙ ap (λ r. take limit (drop k rows) ++ r) (drop-drop k limit rows)
                  ∙ take-append-drop limit (drop k rows))
        | inr all ↦
            follow-last (page_at k) (walk repo ctx account_id limit fuel (page_at k).next_cursor) s
              (page_at-has_more k ∙ all)
            ∙ ap (λ items. (ok items, s)) (page_at-items k ∙ take_all limit (drop k rows) all)
      ]

  -- The rows of an account stand newest first, no two with one time and id, their times and ids fit an
  -- int64, and the repository reads the page behind a cursor from them. Then a client that starts
  -- without a cursor and follows the cursors lists every row of the account,
  -- once and newest first, whatever the size of its pages.
  pub walk_lists_all :
      (s : S) → walk repo ctx account_id limit (suc (length rows)) [] s ≡ (ok rows, s)
  unfolding decode_cursor is_zero
  walk_lists_all s = walks (suc (length rows)) 0 [] zero_cursor s refl refl (omega arith)
