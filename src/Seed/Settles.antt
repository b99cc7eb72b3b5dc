-- ===== src/Seed/Settles.antt =====
-- What Seed leaves in the tables.
use mathlib.Core.Path.{subst}
use qonto.Prelude.{
  ◌≡◌, ◌≢◌, refl, sym, ap, ◌∙◌, ◌⊎◌, inl, inr, Option, none, some, List, [], ◌∷◌, length, true,
  if◌then◌else◌, arith,
}
use qonto.Prelude.Int.{ℤ, pos, ltb_ℤ}
use qonto.Go.Errors.{Error, Result, ok, err, wrap}
use qonto.Go.Action.{Action, pure, wrapping, ◌>>=◌}
use qonto.Model.Transfer.{Account}
use qonto.Database.Schema.{Tables, add_transactions}
use qonto.Database.Engine.{Engine, Value, int, Reply, Target}
use qonto.Database.Laws.{IsPostgres, CommitsAt, BeginsAt}
use qonto.Service.Contract.{Does, DoesAt}
use qonto.Store.Session.{read_row, scan_int}
use qonto.Store.Steps.{building-Does, wrapping-Does, done-Does}
use qonto.Txn.Laws.{view}
use qonto.Seed.Laws.{
  with_account_row, Seeded, account_insert, Inserted, Copied, CountsAt, IsSeedable, count_select,
}
use qonto.Seed.{
  query_int, count_accounts, insert_account, copy_transactions, commit_seed, seed_body,
  seed_in_transaction, seed,
}

-- `Scan(&accountID)` of the answer.
id_of_answer :
    (t : Tables) (r : List Value) (rs : List (List Value)) (t' : Tables)
    → Inserted t (r ∷ rs) t'
    → (id : ℤ) × (scan_int r ≡ ok id) × (t' ≡ with_account_row id t)
unfolding scan_int
id_of_answer t r rs t' (id, same, moved) =
    let one : r ≡ int id ∷ [] = cc same in (id, rw one refl, moved)

accounts-cases :
    (l : List Account) → (l ≡ []) ⊎ ((l ≢ []) × (ltb_ℤ (pos 0) (pos (length l)) ≡ true))
accounts-cases [] = inl refl
accounts-cases (a ∷ l) = inr ((λ e. cc), ground arith)

module _ (e : Engine) where
  -- A nil error means `Q` of what is committed; with another error nothing has changed, or `Q`.
  abbrev pub EndsAt : Tables → (Tables → Type 0) → Result (Unit {0}) × e.State → Type 0
  EndsAt base Q (ok _, s') = Q (e.committed s')
  EndsAt base Q (err _, s') = (e.committed s' ≡ base) ⊎ Q (e.committed s')

  continue :
      {A : Type 0} (base : Tables) (Q : Tables → Type 0) (s : e.State) (P : A → Tables → Type 0)
      (f : A → Action e.State (Unit {0})) (x : Result A × e.State)
      → e.committed s ≡ base
      → DoesAt (view e) s P x
      → ((a : A) (s' : e.State)
          → e.committed s' ≡ base
          → P a (e.current s')
          → EndsAt base Q (f a s'))
      → EndsAt base Q (((λ (_ : e.State). x) >>= f) s)
  continue base Q s P f (ok a, s') c (d, _, p) k = k a s' (d ∙ c) p
  continue base Q s P f (err y, s') c d k = inl (d ∙ c)

  committing :
      (base : Tables) (Q : Tables → Type 0) (s : e.State) (x : Option Error × e.State)
      → CommitsAt e s x
      → e.committed s ≡ base
      → Q (e.current s)
      → EndsAt base Q (elim x.0 [
        | none ↦ (ok tt, x.1)
        | some y ↦ (err (wrap "commit seed transaction" y), x.1)
      ])
  committing base Q s (none, s') (_, moved) c q = subst Q (sym moved) q
  committing base Q s (some y, s') (inl same) c q = inl (same ∙ c)
  committing base Q s (some y, s') (inr (_, moved)) c q = inr (subst Q (sym moved) q)

  -- Where there are accounts a nil error leaves the tables as they were; where there are none it
  -- leaves the seed's account and its transactions.
  abbrev pub SeedsAt : e.State → Result (Unit {0}) × e.State → Type 0
  SeedsAt s (ok _, s') =
      (((e.committed s).accounts ≢ []) × (e.committed s' ≡ e.committed s))
      ⊎ (((e.committed s).accounts ≡ []) × Seeded (e.committed s) (e.committed s'))
  SeedsAt s (err _, s') =
      (e.committed s' ≡ e.committed s)
      ⊎ (((e.committed s).accounts ≡ []) × Seeded (e.committed s) (e.committed s'))

  module _ (p : IsPostgres e) (h : IsSeedable e) where
    insert_account-Does :
        (s : e.State)
        → Does (view e) s (λ id t. t ≡ with_account_row id (e.current s)) (insert_account e s)
    unfolding insert_account query_int
    insert_account-Does s =
        building-Does e "build insert account query" account_insert
          (wrapping "seed bank_accounts" (query_int e Target.tx account_insert)) s
          (wrapping-Does e "seed bank_accounts" scan_int s (Inserted (e.current s))
            (λ id t. t ≡ with_account_row id (e.current s)) (id_of_answer (e.current s))
            (e.run Target.tx account_insert s) (h.inserts_account s).holds)

    copy_transactions-Does :
        (account_id : ℤ) (s : e.State)
        → Does
            (view e)
            s
            (λ _ t. Copied account_id (e.current s) t)
            (copy_transactions e account_id s)
    unfolding copy_transactions
    copy_transactions-Does account_id s = record {
      holds =
          done-Does e "seed transactions" s (Copied account_id (e.current s)) _
            (h.copies_rows account_id s).holds;
    }

    seed_body-EndsAt :
        (base : Tables) (s : e.State)
        → e.committed s ≡ base
        → e.current s ≡ base
        → EndsAt base (Seeded base) (seed_body e s)
    unfolding seed_body commit_seed
    seed_body-EndsAt base s c now =
        continue base (Seeded base) s (λ id t. t ≡ with_account_row id (e.current s)) _
          (insert_account e s) c (insert_account-Does s).holds
          (λ id s1 c1 opened.
            continue base (Seeded base) s1 (λ _ t. Copied id (e.current s1) t) _
              (copy_transactions e id s1) c1 (copy_transactions-Does id s1).holds
              (λ _ s2 c2 (rows, posts, moved).
                committing base (Seeded base) s2 (e.commit s2) (p.commits s2) c2 (
                  id,
                  rows,
                  posts,
                  moved ∙ ap (add_transactions rows) (opened ∙ ap (with_account_row id) now),
                )))

    -- The deferred rollback changes nothing that is committed.
    rolled_back :
        (base : Tables) (Q : Tables → Type 0) (x : Result (Unit {0}) × e.State)
        → EndsAt base Q x
        → EndsAt base Q (x.0, (e.rollback x.1).1)
    rolled_back base Q (ok _, s') q = subst Q (sym (p.rolls_back s')) q
    rolled_back base Q (err y, s') (inl same) = inl (p.rolls_back s' ∙ same)
    rolled_back base Q (err y, s') (inr q) = inr (subst Q (sym (p.rolls_back s')) q)

    begun :
        (base : Tables) (s : e.State) (x : Option Error × e.State)
        → e.committed s ≡ base
        → BeginsAt e s x
        → EndsAt base (Seeded base) (elim x.0 [
          | some y ↦ (err (wrap "begin seed transaction" y), x.1)
          | none ↦ let (r, s2) = seed_body e x.1 in (r, (e.rollback s2).1)
        ])
    begun base s (some y, s1) c b = inl (b ∙ c)
    begun base s (none, s1) c (b, now, _) =
        rolled_back base (Seeded base) (seed_body e s1) (seed_body-EndsAt base s1 (b ∙ c) (now ∙ c))

    seed_in_transaction-EndsAt :
        (base : Tables) (s : e.State)
        → e.committed s ≡ base
        → EndsAt base (Seeded base) (seed_in_transaction e s)
    unfolding seed_in_transaction
    seed_in_transaction-EndsAt base s c = begun base s (e.begin s) c (p.begins s)

    empty_seeds :
        (s : e.State) (x : Result (Unit {0}) × e.State)
        → (e.committed s).accounts ≡ []
        → EndsAt (e.committed s) (Seeded (e.committed s)) x
        → SeedsAt s x
    empty_seeds s (ok _, s') none_yet q = inr (none_yet, q)
    empty_seeds s (err y, s') none_yet (inl same) = inl same
    empty_seeds s (err y, s') none_yet (inr q) = inr (none_yet, q)

    abbrev CountedAt : e.State → Result ℤ × e.State → Type 0
    CountedAt s (ok n, s') =
        (n ≡ pos (length (e.committed s).accounts)) × (e.committed s' ≡ e.committed s)
    CountedAt s (err _, s') = e.committed s' ≡ e.committed s

    read-CountedAt :
        (s : e.State) (x : Reply × e.State)
        → CountsAt e s x
        → CountedAt s (
            wrapping "check existing bank_accounts"
              (λ (_ : e.State). (read_row scan_int x.0, x.1))
              s)
    unfolding read_row scan_int
    read-CountedAt s (Reply.rows rs, s') (answer, c) = rw answer (refl, c)
    read-CountedAt s (Reply.failed y, s') c = c
    read-CountedAt s (Reply.broken rs y, s') c = c

    built-CountedAt :
        (s : e.State) (m : Action e.State ℤ) (o : Option Error)
        → CountedAt s (m s)
        → CountedAt s (elim o [ none ↦ m s | some x ↦ (err (wrap "build count query" x), s) ])
    built-CountedAt s m none c = c
    built-CountedAt s m (some x) c = refl

    count_accounts-CountedAt : (s : e.State) → CountedAt s (count_accounts e s)
    unfolding count_accounts query_int
    count_accounts-CountedAt s =
        built-CountedAt s
          (wrapping "check existing bank_accounts" (query_int e Target.pool count_select))
          (e.to_sql count_select) (read-CountedAt s _ (h.counts s))

    decided :
        (s : e.State) (x : Result ℤ × e.State)
        → CountedAt s x
        → SeedsAt s (
            ((λ (_ : e.State). x)
                >>= (λ count. if ltb_ℤ (pos 0) count then pure tt else seed_in_transaction e))
              s)
    decided s (err y, s1) c = inl c
    decided s (ok n, s1) (counted, c) = elim (accounts-cases (e.committed s).accounts) [
      | inl none_yet ↦
          let zero_count : n ≡ pos 0 = counted ∙ ap (λ l. pos (length l)) none_yet in
          rw zero_count (empty_seeds s _ none_yet (seed_in_transaction-EndsAt (e.committed s) s1 c))
      | inr (some_there, many) ↦
          let several : ltb_ℤ (pos 0) n ≡ true = ap (ltb_ℤ (pos 0)) counted ∙ many in
          rw several (inl (some_there, c))
    ]

    -- On an engine with PostgreSQL's documented behaviour: where there are accounts, a seed without an
    -- error leaves the committed tables as they were; where there are none, it leaves one more
    -- account and the seed's transactions on it. With an error nothing has changed, or all of that
    -- was committed to empty tables and only the acknowledgement was lost.
    pub seed_settles : (s : e.State) → SeedsAt s (seed e s)
    unfolding seed
    seed_settles s = decided s (count_accounts e s) (count_accounts-CountedAt s)
