-- ===== src/Concurrency/Invariant.antt =====
-- What holds of all sessions together: the locks keep them apart, and what each has read stays true.
use mathlib.Core.Path.{subst}
use mathlib.Core.Logic.{ite}
use native.Mathlib.Decide.{ℕ_discrete}
use qonto.Prelude.{
  ℕ, String, ◌≡◌, ◌≢◌, refl, sym, ap, ◌⊎◌, inl, inr, Bool-cases, true, false, none, some,
}
use qonto.Prelude.Int.{ℤ, eqb_ℤ}
use qonto.Model.Transfer.{Account, BulkTransferRequest, total_cents}
use qonto.Database.Schema.{Tables, status_of, account_of, IsKeyed}
use qonto.Database.Rows.{eqb_ℤ-true}
use qonto.Service.Submit.{Response}
use qonto.Service.Outcome.{Submitted, replayed, not_found, insufficient, created}
use qonto.Service.Once.{Submitted-keeps}
use qonto.Concurrency.Session.{
  Stage, holds_key, held_row, Move, take_key, find_account, Commit, commit_replay, commit_missing,
  commit_short, commit_created,
}
use qonto.Concurrency.System.{System, assign, lock_of}
use qonto.Concurrency.Known.{
  Known, Leaves, status_of-other, account_of-debit-none, account_of-debit_other,
}

-- A commit is one submission on the tables that are committed then.
pub Commit-Submitted :
    {req : BulkTransferRequest} {t : Tables} {p : Stage} {r : Response} {t' : Tables}
    → Commit t req p r t'
    → Known req p t
    → Submitted req t r t'
Commit-Submitted commit_replay k = replayed k
Commit-Submitted commit_missing (n, m) = not_found n m
Commit-Submitted (commit_short {a}) (n, s, short) = insufficient {account = a} n s short
Commit-Submitted (commit_created {a} {batch_id} {rows}) (n, s, (enough, positive), posts) =
    created a batch_id rows n s enough positive posts

module _ (f : ℕ → Stage) (i : ℕ) (p : Stage) where
  -- A property of every stage, after one has changed.
  pub assigned :
      (P : ℕ → Stage → Type 0)
      → P i p
      → ((j : ℕ) → i ≢ j → P j (f j))
      → (j : ℕ) → P j (assign f i p j)
  assigned P h k j = elim (ℕ_discrete i j) as (λ d. P j (ite d p (f j))) [
    | yes e ↦ subst (λ n. P n p) e h
    | no n ↦ k j n
  ]

  -- A symmetric property of every two stages.
  pub assigned_pair :
      (R : ℕ → ℕ → Stage → Stage → Type 0)
      → ((a b : ℕ) (x y : Stage) → R a b x y → R b a y x)
      → ((a b : ℕ) → a ≢ b → R a b (f a) (f b))
      → ((j : ℕ) → i ≢ j → R i j p (f j))
      → (a b : ℕ) → a ≢ b
      → R a b (assign f i p a) (assign f i p b)
  assigned_pair R swap old new =
      assigned (λ a x. (b : ℕ) → a ≢ b → R a b x (assign f i p b))
        (assigned (λ b y. i ≢ b → R i b p y) (λ ne. absurd (ne refl)) (λ b ne _. new b ne))
        (λ a na.
          assigned (λ b y. a ≢ b → R a b (f a) y) (λ _. swap i a p (f a) (new a na))
            (λ b _ ne. old a b ne))

module _ {key_free : Type 0} {row_free : ℤ → Type 0} {t : Tables} {req : BulkTransferRequest} where
  -- A key or a row that a move has locked was locked before, or free.
  pub Move-holds_key :
      {p q : Stage}
      → Move key_free row_free t req p q
      → holds_key q ≡ true
      → (holds_key p ≡ true) ⊎ key_free
  Move-holds_key (take_key free) h = inr free
  Move-holds_key m h = inl refl

  pub Move-held_row :
      {p q : Stage}
      → Move key_free row_free t req p q
      → (a : Account) → held_row q ≡ some a
      → (held_row p ≡ some a) ⊎ row_free a.id
  Move-held_row (find_account {a = b} e free) a h =
      let same : b ≡ a = cc h in inr (subst (λ (c : Account). row_free c.id) same free)
  Move-held_row m a h = inl h

module _ (hashtext : String → ℤ) (requests : ℕ → BulkTransferRequest) where
  abbrev pub KeysApart : ℕ → ℕ → Stage → Stage → Type 0
  KeysApart a b x y =
      holds_key x ≡ true
      → holds_key y ≡ true
      → lock_of hashtext requests a ≢ lock_of hashtext requests b

  abbrev pub RowsApart : Stage → Stage → Type 0
  RowsApart x y = (u v : Account) → held_row x ≡ some u → held_row y ≡ some v → u.id ≢ v.id

  pub record Inv (s : System) : Type 0 where
    pub keyed : IsKeyed s.tables.accounts
    pub known : (i : ℕ) → Known (requests i) (s.stage i) s.tables
    pub keys : (i j : ℕ) → i ≢ j → KeysApart i j (s.stage i) (s.stage j)
    pub rows : (i j : ℕ) → i ≢ j → RowsApart (s.stage i) (s.stage j)

  other_key :
      (i j : ℕ) (p q : Stage)
      → KeysApart i j p q
      → holds_key p ≡ true
      → holds_key q ≡ true
      → (requests i).idempotency_key ≢ (requests j).idempotency_key
  other_key i j p q apart hp hq e = apart hp hq (ap hashtext e)

  other_row :
      (p q : Stage)
      → RowsApart p q
      → (a b : Account) → held_row p ≡ some a
      → held_row q ≡ some b
      → eqb_ℤ b.id a.id ≡ false
  other_row p q apart a b ha hb = elim (Bool-cases (eqb_ℤ b.id a.id)) [
    | inl same ↦ absurd (apart a b ha hb (sym (eqb_ℤ-true b.id a.id same)))
    | inr other ↦ other
  ]

  Commit-new :
      (i : ℕ) {t : Tables} {p : Stage} {r : Response} {t' : Tables} (k : String)
      → Commit t (requests i) p r t'
      → (holds_key p ≡ true → (requests i).idempotency_key ≢ k)
      → status_of k t.keys ≡ none
      → status_of k t'.keys ≡ none
  Commit-new i k commit_replay ne h = h
  Commit-new i {t} k commit_missing ne h =
      status_of-other k (requests i).idempotency_key _ t.keys (ne refl) h
  Commit-new i {t} k commit_short ne h =
      status_of-other k (requests i).idempotency_key _ t.keys (ne refl) h
  Commit-new i {t} k commit_created ne h =
      status_of-other k (requests i).idempotency_key _ t.keys (ne refl) h

  Commit-absent :
      (i : ℕ) {t : Tables} {p : Stage} {r : Response} {t' : Tables} (iban bic : String)
      → Commit t (requests i) p r t'
      → account_of iban bic t.accounts ≡ none
      → account_of iban bic t'.accounts ≡ none
  Commit-absent i iban bic commit_replay h = h
  Commit-absent i iban bic commit_missing h = h
  Commit-absent i iban bic commit_short h = h
  Commit-absent i {t} iban bic (commit_created {a}) h =
      account_of-debit-none iban bic a.id (total_cents (requests i)) t.accounts h

  Commit-stands :
      (i : ℕ) {t : Tables} {p : Stage} {r : Response} {t' : Tables} (iban bic : String)
      {b : Account}
      → Commit t (requests i) p r t'
      → ((a : Account) → held_row p ≡ some a → eqb_ℤ b.id a.id ≡ false)
      → account_of iban bic t.accounts ≡ some b
      → account_of iban bic t'.accounts ≡ some b
  Commit-stands i iban bic commit_replay ne h = h
  Commit-stands i iban bic commit_missing ne h = h
  Commit-stands i iban bic commit_short ne h = h
  Commit-stands i {t} iban bic {b} (commit_created {a}) ne h =
      account_of-debit_other iban bic a.id (total_cents (requests i)) t.accounts {a = b} (ne a refl)
        h

  -- A commit of one session leaves what another knows.
  pub Commit-Leaves :
      (i j : ℕ) {t : Tables} {p q : Stage} {r : Response} {t' : Tables}
      → Commit t (requests i) p r t'
      → Known (requests i) p t
      → KeysApart i j p q
      → RowsApart p q
      → Leaves (requests j) q t t'
  Commit-Leaves i j {t} {p} {q} c k keys rows = record {
    new = λ hq. Commit-new i (requests j).idempotency_key c (λ hp. other_key i j p q keys hp hq);
    recorded = λ n. Submitted-keeps (requests j).idempotency_key n (Commit-Submitted c k);
    absent = Commit-absent i _ _ c;
    stands = λ b hb. Commit-stands i _ _ c (λ a ha. other_row p q rows a b ha hb);
  }
