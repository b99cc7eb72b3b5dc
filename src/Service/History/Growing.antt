-- ===== src/Service/History/Growing.antt =====
-- Following the cursors while rows are added.
use mathlib.Core.Path.{subst}
use qonto.Prelude.{
  ℕ, zero, suc, ◌+◌, ◌<◌, ◌≡◌, refl, ap, ◌∙◌, inl, inr, Bool-cases, true, Bytes, List, [], ◌∷◌,
  ◌++◌, length, take, drop, ltb, if◌then◌else◌, All, All-take, All-drop, length-take, length-drop,
  arith, past, last-exists, last-take-drop, drop-drop, take-append-drop, take-take,
}
use qonto.Prelude.Int.{ℤ}
use qonto.Go.Errors.{ok}
use qonto.Go.Action.{pure, ◌>>=◌}
use qonto.Go.Context.{Context, with_phase}
use qonto.Go.Time.{is_zero}
use qonto.Model.Pagination.{TransactionHistoryItem, Cursor, zero_cursor, decode_cursor}
use qonto.Service.Interfaces.{Repository}
use qonto.Service.History.{
  TransactionHistoryPage, cursor_at, next_cursor_of, page_of, list_from, list_transaction_history,
}
use qonto.Service.History.Pages.{
  keep, IsDescending, select_page, keep-drop, page_of-take, take_all, last-All,
}
use qonto.Service.History.Walk.{
  IsNamed, follow, follow-more, follow-last, walk, is_zero-IsInt64, page_of-next_cursor,
  next_cursor_of-last,
}

-- The rows that a cursor leaves.
abbrev pub left_after : List TransactionHistoryItem → Cursor → List TransactionHistoryItem
left_after rows c = if is_zero c.created_at then rows else keep c rows

-- The same rows behind some that are newer.
abbrev pub Grows : List TransactionHistoryItem → List TransactionHistoryItem → Type 0
Grows rows rows' = (newer : List TransactionHistoryItem) × (rows' ≡ newer ++ rows)

drop-append : (xs ys : List TransactionHistoryItem) → drop (length xs) (xs ++ ys) ≡ ys
drop-append [] ys = refl
drop-append (x ∷ xs) ys = drop-append xs ys

-- What is left behind a position is left behind one of the grown rows.
Grows-drop :
    (k : ℕ) (rows rows' : List TransactionHistoryItem)
    → Grows rows rows'
    → (k' : ℕ) × (drop k' rows' ≡ drop k rows)
Grows-drop k rows rows' (newer, grown) = (
  past (length newer) k,
  drop-drop (length newer) k rows'
      ∙ ap (drop k) (ap (drop (length newer)) grown ∙ drop-append newer rows),
)

module _ (limit : ℕ) (positive : 0 < limit) where
  abbrev page_on : List TransactionHistoryItem → TransactionHistoryPage
  page_on rest = page_of limit (take (limit + 1) rest)

  page_on-items : (rest : List TransactionHistoryItem) → (page_on rest).items ≡ take limit rest
  page_on-items rest =
      (page_of-take limit (take (limit + 1) rest)).0
      ∙ take-take limit (limit + 1) rest (omega arith)

  page_on-has_more :
      (rest : List TransactionHistoryItem) → (page_on rest).has_more ≡ ltb limit (length rest)
  page_on-has_more rest =
      (page_of-take limit (take (limit + 1) rest)).2 ∙ ground (arith, length-take (limit + 1) rest)

  -- The cursor of a page with more rows behind it leaves those rows, also of grown rows.
  page_on-next_cursor :
      (rest rows : List TransactionHistoryItem) (k : ℕ)
      → drop k rows ≡ rest
      → IsDescending rows
      → All IsNamed rows
      → ltb limit (length rest) ≡ true
      → (c : Cursor) × (decode_cursor (page_on rest).next_cursor ≡ ok c)
        × (left_after rows c ≡ drop limit rest)
  page_on-next_cursor rest rows k at descending named more =
      let (l, e) = last-exists limit rest positive more in
      let n : IsNamed l =
        last-All IsNamed (take limit rest) l e
          (All-take IsNamed limit rest (subst (All IsNamed) at (All-drop IsNamed k rows named))) in
      (
        cursor_at l,
        ap decode_cursor (
              page_of-next_cursor limit (take (limit + 1) rest)
                (ground (arith, length-take (limit + 1) rest))
              ∙ ap (next_cursor_of true) (take-take limit (limit + 1) rest (omega arith)))
            ∙ next_cursor_of-last (take limit rest) l e n,
        rw (is_zero-IsInt64 l.created_at n.0) (
            keep-drop (past k limit) rows l descending (last-take-drop k limit rows l (rw at e))
            ∙ drop-drop k limit rows
            ∙ ap (drop limit) at),
      )

-- A repository whose rows may grow with every request.
module _ {S : Type 0} (repo : Repository S) (ctx : Context) (account_id : ℤ) (limit : ℕ)
    (positive : 0 < limit) (rows_at : S → List TransactionHistoryItem)
    (descending : (s : S) → IsDescending (rows_at s)) (named : (s : S) → All IsNamed (rows_at s))
    (reads : (c : Context) (cursor : Cursor) (n : ℕ) (s : S)
      → (s' : S) × (repo.transaction_history_page c account_id cursor n s
          ≡ (ok (select_page (rows_at s) cursor n), s'))
        × Grows (rows_at s) (rows_at s')) where
  listed :
      (cursor : Bytes) (c : Cursor) (s : S)
      → decode_cursor cursor ≡ ok c
      → (s' : S) × (list_transaction_history repo ctx account_id cursor limit s
          ≡ (ok (page_of limit (take (limit + 1) (left_after (rows_at s) c))), s'))
        × Grows (rows_at s) (rows_at s')
  unfolding list_transaction_history list_from
  listed cursor c s e =
      let (s', read, grown) = reads (with_phase ctx "list_transaction_history") c (limit + 1) s in
      (
        s',
        rw e (ap (λ x. ((λ (_ : S). x) >>= (λ items. pure (page_of limit items))) s) read),
        grown,
      )

  walks :
      (fuel k : ℕ) (rest : List TransactionHistoryItem) (cursor : Bytes) (c : Cursor) (s : S)
      → decode_cursor cursor ≡ ok c
      → left_after (rows_at s) c ≡ rest
      → drop k (rows_at s) ≡ rest
      → length rest < fuel
      → (s' : S) × (walk repo ctx account_id limit fuel cursor s ≡ (ok rest, s'))
  unfolding walk
  walks zero k rest cursor c s e left at h = ground arith
  walks (suc fuel) k rest cursor c s e left at h =
      let (s1, page, grown) = listed cursor c s e in
      let first =
        ap
          (λ x.
            ((λ (_ : S). x)
                >>= (λ page. follow page (walk repo ctx account_id limit fuel page.next_cursor)))
              s)
          (page ∙ ap (λ r. (ok (page_of limit (take (limit + 1) r)), s1)) left) in
      elim (Bool-cases (ltb limit (length rest))) [
        | inl more ↦
            let (k1, at1) = Grows-drop k (rows_at s) (rows_at s1) grown in
            let (next, e1, left1) =
              page_on-next_cursor limit positive rest (rows_at s1) k1 (at1 ∙ at) (descending s1)
                (named s1) more in
            let (s2, others) =
              walks fuel (past k1 limit) (drop limit rest) (page_on limit positive rest).next_cursor
                next s1 e1 left1 (drop-drop k1 limit (rows_at s1) ∙ ap (drop limit) (at1 ∙ at))
                (ground (arith, length-drop limit rest, positive)) in
            (
              s2,
              first
                  ∙ follow-more (page_on limit positive rest)
                      (walk repo ctx account_id limit fuel
                        (page_on limit positive rest).next_cursor)
                      (drop limit rest) s1 (page_on-has_more limit positive rest ∙ more) others
                  ∙ ap (λ items. (ok items, s2))
                      (ap (λ items. items ++ drop limit rest) (page_on-items limit positive rest)
                        ∙ take-append-drop limit rest),
            )
        | inr all ↦ (
          s1,
          first
              ∙ follow-last (page_on limit positive rest)
                  (walk repo ctx account_id limit fuel (page_on limit positive rest).next_cursor) s1
                  (page_on-has_more limit positive rest ∙ all)
              ∙ ap (λ items. (ok items, s1))
                  (page_on-items limit positive rest ∙ take_all limit rest all),
        )
      ]

  -- The rows of an account stand newest first, no two with one time and id, their times and ids fit
  -- an int64, and between two requests rows may be added that are newer than all others. Then a
  -- client that starts without a cursor and follows the cursors lists every row that was there at
  -- its first request, once and newest first, and no other, whatever the size of its pages.
  pub growing_walk_lists_all :
      (s : S)
      → (s' : S) × (walk repo ctx account_id limit (suc (length (rows_at s))) [] s
          ≡ (ok (rows_at s), s'))
  unfolding decode_cursor is_zero
  growing_walk_lists_all s =
      walks (suc (length (rows_at s))) 0 (rows_at s) [] zero_cursor s refl refl refl (omega arith)
