-- ===== src/Service/History/Pages.antt =====
-- What a page holds, and that following the cursors lists every row once.
use mathlib.Core.Path.{subst}
use qonto.Prelude.{
  ℕ, zero, suc, ◌≤◌, ◌≡◌, refl, ap, inl, inr, Bool, Bool-cases, true, false, ◌&&◌, ◌||◌, some, List,
  [], ◌∷◌, length, take, drop, last?, ltb, if◌then◌else◌, All, All-take, length-take, arith,
}
use qonto.Prelude.Int.{ltb_ℤ, eqb_ℤ}
use qonto.Go.Time.{is_zero}
use qonto.Model.Pagination.{TransactionHistoryItem, Cursor}
use qonto.Service.History.{cursor_at, next_cursor_of, page_of}

pub take_all :
    (n : ℕ) (xs : List TransactionHistoryItem) → ltb n (length xs) ≡ false → take n xs ≡ xs
take_all zero [] h = refl
take_all zero (x ∷ xs) h = ground arith
take_all (suc n) [] h = refl
take_all (suc n) (x ∷ xs) h = ap (λ r. x ∷ r) (take_all n xs (ground arith))

within : (n : ℕ) (xs : List TransactionHistoryItem) → ltb n (length xs) ≡ false → length xs ≤ n
within n xs h = ground arith

-- A page is at most `limit` rows, the first of those fetched, and there are more exactly if more
-- than `limit` rows were fetched; with no more rows there is no cursor.
pub page_of-take :
    (limit : ℕ) (fetched : List TransactionHistoryItem)
    → let page = page_of limit fetched in
      (page.items ≡ take limit fetched)
      × (length page.items ≤ limit)
      × (page.has_more ≡ ltb limit (length fetched))
      × (page.has_more ≡ false → (page.items ≡ fetched) × (page.next_cursor ≡ []))
unfolding page_of next_cursor_of
page_of-take limit fetched = elim (Bool-cases (ltb limit (length fetched))) [
  | inl more ↦
      (rw more refl, rw more (omega (arith, length-take limit fetched)), refl, λ h. cc (h, more))
  | inr all ↦ (
    rw (all, take_all limit fetched all) refl,
    rw all (within limit fetched all),
    refl,
    λ h. rw all (refl, refl),
  )
]

-- A row that the key (created_at, id) of a cursor comes after: SQL's comparison of pairs.
abbrev pub before : TransactionHistoryItem → Cursor → Bool
before i c = ltb_ℤ i.created_at c.created_at || (eqb_ℤ i.created_at c.created_at && ltb_ℤ i.id c.id)

abbrev pub keep : Cursor → List TransactionHistoryItem → List TransactionHistoryItem
keep c [] = []
keep c (i ∷ rows) = if before i c then i ∷ keep c rows else keep c rows

-- Newest first, and no two rows with one key.
abbrev pub IsDescending : List TransactionHistoryItem → Type 0
IsDescending [] = Unit
IsDescending (i ∷ rows) =
    All (λ (j : TransactionHistoryItem). before j (cursor_at i) ≡ true) rows × IsDescending rows

-- The rows that the query of a page selects from all rows of an account.
abbrev pub select_page : List TransactionHistoryItem → Cursor → ℕ → List TransactionHistoryItem
select_page rows c limit = take limit (if is_zero c.created_at then rows else keep c rows)

keep-All :
    (c : Cursor) (rows : List TransactionHistoryItem)
    → All (λ (j : TransactionHistoryItem). before j c ≡ true) rows
    → keep c rows ≡ rows
keep-All c [] h = refl
keep-All c (i ∷ rows) (h, hs) = rw (h, keep-All c rows hs) refl

not_before-itself : (i : TransactionHistoryItem) → before i (cursor_at i) ≡ false
not_before-itself i = ground arith

before_asym :
    (i j : TransactionHistoryItem) → before i (cursor_at j) ≡ true → before j (cursor_at i) ≡ false
before_asym i j h = ground arith

pub last-All :
    (P : TransactionHistoryItem → Type 0) (xs : List TransactionHistoryItem)
    (l : TransactionHistoryItem)
    → last? xs ≡ some l
    → All P xs
    → P l
last-All P [] l e h = cc
last-All P (x ∷ []) l e h = subst P (cc e) h.0
last-All P (x ∷ y ∷ r) l e h = last-All P (y ∷ r) l e h.1

-- After the last of the first rows come the others.
pub keep-drop :
    (k : ℕ) (rows : List TransactionHistoryItem) (l : TransactionHistoryItem)
    → IsDescending rows
    → last? (take k rows) ≡ some l
    → keep (cursor_at l) rows ≡ drop k rows
keep-drop zero rows l d e = cc
keep-drop (suc k) [] l d e = cc
keep-drop (suc zero) (x ∷ rows) l (h, d) e =
    let same : x ≡ l = cc e in
    subst (λ i. keep (cursor_at i) (x ∷ rows) ≡ rows) same
      (rw (not_before-itself x) (keep-All (cursor_at x) rows h))
keep-drop (suc (suc k)) (x ∷ []) l (h, d) e =
    let same : x ≡ l = cc e in
    subst (λ i. keep (cursor_at i) (x ∷ []) ≡ []) same (rw (not_before-itself x) refl)
keep-drop (suc (suc k)) (x ∷ y ∷ rows) l (h, d) e =
    let later : before l (cursor_at x) ≡ true =
      last-All (λ j. before j (cursor_at x) ≡ true) (take (suc k) (y ∷ rows)) l e
        (All-take (λ j. before j (cursor_at x) ≡ true) (suc k) (y ∷ rows) h) in
    rw (before_asym l x later) (keep-drop (suc k) (y ∷ rows) l d e)
