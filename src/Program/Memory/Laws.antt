-- ===== src/Program/Memory/Laws.antt =====
-- The engine in memory behaves as PostgreSQL and pgx document.
use qonto.Prelude.{
  ℕ, suc, String, ◌≡◌, refl, sym, ap, ◌∙◌, inl, Bool, true, false, Option, none, some, List, [],
  ◌∷◌, map, arith, length,
}
use qonto.Prelude.Int.{ℤ, pos, leb_ℤ, ◌≤ℤ◌, ◌-ℤ◌}
use qonto.Go.Errors.{is_no_rows}
use qonto.Database.Schema.{
  Tables, Posting, TransactionRow, status_of, add_key, add_batch, add_transactions, account_of,
  balance_of, debit_in,
}
use qonto.Database.Rows.{debit-IsKeyed}
use mathlib.Core.Path.{subst}
use qonto.Database.Engine.{Value, int}
use qonto.Database.Laws.{AnswersAt, Answers, CommitsAt, Copies, found_rows, IsPostgres}
use qonto.Program.Memory.{
  Stored, MemoryState, Outcome, refuse, answer, insert_fresh, insert_checked, next_id, posting_at,
  cons_posting, postings_of, rows_of, account_values, stamp_from, stamp_in, step, commit_if, memory,
}

answers :
    (dead : Bool) (o : Outcome) (s : MemoryState) (Q : List (List Value) → Tables → Type 0)
    → s.dead ≡ dead
    → ((rs : List (List Value)) (t : Stored) → o ≡ answer rs t → Q rs t.tables)
    → AnswersAt memory s Q (step dead o s)
unfolding is_no_rows
answers true o s Q e h = (refl, e, refl)
answers false (refuse code) s Q e h = (refl, refl, refl)
answers false (answer rs t) s Q e h = (refl, refl, h rs t refl)

pub runs :
    (o : Outcome) (s : MemoryState) {Q : List (List Value) → Tables → Type 0}
    → ((rs : List (List Value)) (t : Stored) → o ≡ answer rs t → Q rs t.tables)
    → Answers memory s Q (step s.dead o s)
runs o s {Q} h = record { holds = answers s.dead o s Q refl h }

pub gives :
    (rs : List (List Value)) (t : Stored) (s : MemoryState)
    {Q : List (List Value) → Tables → Type 0}
    → Q rs t.tables
    → Answers memory s Q (step s.dead (answer rs t) s)
gives rs t s {Q} q = runs (answer rs t) s (λ rs' t' e. subst (λ (o : Outcome). meets Q o) e q)
  where
    meets : (List (List Value) → Tables → Type 0) → Outcome → Type 0
    meets Q (refuse _) = ⊥
    meets Q (answer rs t) = Q rs t.tables

commits : (dead : Bool) (s : MemoryState) → s.dead ≡ dead → CommitsAt memory s (commit_if dead s)
commits true s e = inl refl
commits false s e = (e, refl)

fresh_key :
    (k : String) (status : ℤ) (o : Option ℤ) (s t : Stored) (rs : List (List Value))
    → insert_fresh k status o s ≡ answer rs t
    → (o ≡ none) × (t.tables ≡ add_key k status s.tables)
fresh_key k status none s t rs h = (refl, cc h)
fresh_key k status (some n) s t rs h = cc

checked_total :
    (id : ℤ) (k : String) (total : ℤ) (b : Bool) (s t : Stored) (rs : List (List Value))
    → insert_checked id k total b s ≡ answer rs t
    → (b ≡ true)
      × (rs ≡ (int (next_id s.tables) ∷ []) ∷ [])
      × (t.tables
          ≡ add_batch
              (record {
                id = next_id s.tables;
                bank_account_id = id;
                idempotency_key = k;
                total_amount_cents = total;
              })
              s.tables)
checked_total id k total true s t rs h = (refl, cc h, cc h)
checked_total id k total false s t rs h = cc

positive : (total : ℤ) → leb_ℤ (pos 1) total ≡ true → pos 1 ≤ℤ total
positive total h = ground arith

postings_of-Copies :
    (ps : List Posting) (vss : List (List Value)) → Copies memory ps vss → postings_of vss ≡ ps
postings_of-Copies [] [] h = refl
postings_of-Copies (p ∷ ps) (vs ∷ vss) ((id, known, shape), h) =
    ap (λ v. cons_posting (posting_at v) (postings_of vss)) shape
    ∙ ap (λ (b : Option ℤ). record p { batch_id = b } ∷ postings_of vss) (sym known)
    ∙ ap (λ r. p ∷ r) (postings_of-Copies ps vss h)
postings_of-Copies [] (vs ∷ vss) h = elim h [ ]
postings_of-Copies (p ∷ ps) [] h = elim h [ ]

pub stamped :
    (n : ℕ) (ps : List Posting) → map (λ (r : TransactionRow). r.posting) (stamp_from n ps) ≡ ps
stamped n [] = refl
stamped n (p ∷ ps) = ap (λ r. p ∷ r) (stamped (suc n) ps)

same_rows :
    {A : Type 0} (row : A → List Value) (o : Option A) → rows_of row o ≡ found_rows memory row o
same_rows row none = refl
same_rows row (some a) = refl

pub memory-IsPostgres : IsPostgres memory
memory-IsPostgres = record {
  begins = λ s. (refl, refl, refl);
  commits = λ s. commits s.dead s refl;
  rolls_back = λ s. refl;
  keyed = λ s. s.current.keyed;
  locks = λ k s. gives [] s.current s refl;
  selects_status = λ k s.
      gives (rows_of (λ n. int n ∷ []) (status_of k s.current.tables.keys)) s.current s
        (same_rows _ _, refl);
  inserts_key = λ k status s.
      runs (insert_fresh k status (status_of k s.current.tables.keys) s.current) s
        (λ rs t h. fresh_key k status (status_of k s.current.tables.keys) s.current t rs h);
  selects_account = λ iban bic s.
      gives (rows_of account_values (account_of iban bic s.current.tables.accounts)) s.current s
        (same_rows _ _, refl);
  updates_balance = λ id amount s.
      gives (rows_of (λ b. int (b -ℤ amount) ∷ []) (balance_of id s.current.tables.accounts))
        (record {
          tables = debit_in id amount s.current.tables;
          keyed = debit-IsKeyed id amount s.current.tables.accounts s.current.keyed;
        })
        s (same_rows _ _, refl);
  inserts_batch = λ id k total s.
      runs (insert_checked id k total (leb_ℤ (pos 1) total) s.current) s (λ rs t h.
        let (p, r, m) = checked_total id k total (leb_ℤ (pos 1) total) s.current t rs h in
        (positive total p, r, m));
  copies = λ ps vss s c.
      gives []
        (record {
          tables = add_transactions (stamp_in s.current.tables (postings_of vss)) s.current.tables;
          keyed = s.current.keyed;
        })
        s
        (ap (λ x. add_transactions (stamp_in s.current.tables x) s.current.tables)
          (postings_of-Copies ps vss c));
  stamps = λ s ps. stamped (suc (length s.current.tables.transactions)) ps;
}
