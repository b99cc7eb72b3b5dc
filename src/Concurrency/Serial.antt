-- ===== src/Concurrency/Serial.antt =====
-- Interleaved submissions have the effect of submissions one after the other.
use mathlib.Core.Path.{subst}
use qonto.Prelude.{Bool, ℕ, String, ◌≡◌, ◌≢◌, refl, sym, ap, ◌∙◌, inl, inr, true, false, none, some}
use qonto.Prelude.Int.{ℤ}
use qonto.Model.Transfer.{BulkTransferRequest, total_cents}
use qonto.Database.Schema.{Tables, status_of, IsKeyed}
use qonto.Database.Rows.{debit-IsKeyed}
use qonto.Service.Submit.{Response, respond}
use qonto.Service.Once.{Reached, start, next, Submitted-recorded}
use qonto.Concurrency.Session.{
  Stage, opening, locked, replying, fresh, missing, located, inserted, posted, debited,
  settling_missing, settling_short, settling_created, answered, ended, holds_key, held_row, Move,
  Commit, commit_replay, commit_missing, commit_short, commit_created,
}
use qonto.Concurrency.System.{
  System, assign, KeyFree, RowFree, Step, move, commit, commit_unacknowledged, abandon, Interleaved,
  all_opening, and_then,
}
use qonto.Concurrency.Known.{Known, Known-kept, Move-Known}
use qonto.Concurrency.Invariant.{
  Commit-Submitted, assigned, assigned_pair, Move-holds_key, Move-held_row, KeysApart, RowsApart,
  Inv, Commit-Leaves,
}

Commit-IsKeyed :
    {req : BulkTransferRequest} {t : Tables} {p : Stage} {r : Response} {t' : Tables}
    → Commit t req p r t'
    → IsKeyed t.accounts
    → IsKeyed t'.accounts
Commit-IsKeyed commit_replay k = k
Commit-IsKeyed commit_missing k = k
Commit-IsKeyed commit_short k = k
Commit-IsKeyed {req} {t} (commit_created {a}) k = debit-IsKeyed a.id (total_cents req) t.accounts k

some_inj : {x y : ℤ} → some x ≡ some y → x ≡ y
some_inj h = cc

-- Where `RecordIdempotency` may come next.
abbrev pub records_next : Stage → Bool
records_next missing = true
records_next (located _) = true
records_next (debited _ _ _) = true
records_next _ = false

Known-new :
    (req : BulkTransferRequest) (p : Stage) (t : Tables)
    → records_next p ≡ true
    → Known req p t
    → status_of req.idempotency_key t.keys ≡ none
Known-new req missing t h k = k.0
Known-new req (located a) t h k = k.0
Known-new req (debited a b rows) t h k = k.0
Known-new req opening t h k = cc
Known-new req locked t h k = cc
Known-new req (replying _) t h k = cc
Known-new req fresh t h k = cc
Known-new req (inserted _ _) t h k = cc
Known-new req (posted _ _ _) t h k = cc
Known-new req settling_missing t h k = cc
Known-new req (settling_short _) t h k = cc
Known-new req (settling_created _ _ _) t h k = cc
Known-new req (answered _) t h k = cc
Known-new req ended t h k = cc

module _ (hashtext : String → ℤ) (requests : ℕ → BulkTransferRequest) where
  apart_sym :
      (a b : ℕ) (x y : Stage)
      → KeysApart hashtext requests a b x y
      → KeysApart hashtext requests b a y x
  apart_sym a b x y h hy hx e = h hx hy (sym e)

  rows_sym :
      (a b : ℕ) (x y : Stage) → RowsApart hashtext requests x y → RowsApart hashtext requests y x
  rows_sym a b x y h u v hu hv e = h v u hv hu (sym e)

  carry_on :
      {s : System} (i : ℕ) {p : Stage}
      → Move
          (KeyFree hashtext requests s.stage i)
          (RowFree hashtext requests s.stage i)
          s.tables
          (requests i)
          (s.stage i)
          p
      → Inv hashtext requests s
      → Inv hashtext requests (record { tables = s.tables; stage = assign s.stage i p })
  carry_on {s} i {p} m inv = record {
    keyed = inv.keyed;
    known =
        assigned s.stage i p (λ j x. Known (requests j) x s.tables) (Move-Known m (inv.known i))
          (λ j _. inv.known j);
    keys = assigned_pair s.stage i p (KeysApart hashtext requests) apart_sym inv.keys (λ j ne hp hj.
        elim (Move-holds_key m hp) [
          | inl held ↦ inv.keys i j ne held hj
          | inr free ↦ free j ne hj
        ]);
    rows =
        assigned_pair s.stage i p (λ _ _. RowsApart hashtext requests) rows_sym inv.rows
          (λ j ne u v hu hv. elim (Move-held_row m u hu) [
            | inl held ↦ inv.rows i j ne u v held hv
            | inr free ↦ free j ne v hv
          ]);
  }

  -- A stage that holds no lock.
  let_go :
      {s : System} (i : ℕ) (p : Stage) (t : Tables)
      → holds_key p ≡ false
      → held_row p ≡ none
      → IsKeyed t.accounts
      → Known (requests i) p t
      → ((j : ℕ) → i ≢ j → Known (requests j) (s.stage j) t)
      → Inv hashtext requests s
      → Inv hashtext requests (record { tables = t; stage = assign s.stage i p })
  let_go {s} i p t no_key no_row keyed own others inv = record {
    keyed = keyed;
    known = assigned s.stage i p (λ j x. Known (requests j) x t) own others;
    keys =
        assigned_pair s.stage i p (KeysApart hashtext requests) apart_sym inv.keys
          (λ j ne hp. cc (hp, no_key));
    rows =
        assigned_pair s.stage i p (λ _ _. RowsApart hashtext requests) rows_sym inv.rows
          (λ j ne u v hu. cc (hu, no_row));
  }

  -- A commit leaves every other session what it knows.
  others_know :
      {s : System} (i : ℕ) {r : Response} {t : Tables}
      → Commit s.tables (requests i) (s.stage i) r t
      → Inv hashtext requests s
      → (j : ℕ) → i ≢ j
      → Known (requests j) (s.stage j) t
  others_know {s} i {r} {t} c inv j ne =
      Known-kept (requests j) (s.stage j) s.tables t
        (Commit-Leaves hashtext requests i j c (inv.known i) (inv.keys i j ne) (inv.rows i j ne))
        (inv.known j)

  Step-Inv :
      {s s' : System}
      → Step hashtext requests s s'
      → Inv hashtext requests s
      → Inv hashtext requests s'
  Step-Inv (move i m) inv = carry_on i m inv
  Step-Inv {s} (commit i {r} {t} c) inv =
      let_go i (answered r) t refl refl (Commit-IsKeyed c inv.keyed)
        (Submitted-recorded (Commit-Submitted c (inv.known i))) (others_know i c inv) inv
  Step-Inv {s} (commit_unacknowledged i {r} {t} c) inv =
      let_go i ended t refl refl (Commit-IsKeyed c inv.keyed) tt (others_know i c inv) inv
  Step-Inv {s} (abandon i) inv =
      let_go i ended s.tables refl refl inv.keyed tt (λ j _. inv.known j) inv

  pub Interleaved-Inv :
      {t : Tables} {s : System}
      → Interleaved hashtext requests t s
      → IsKeyed t.accounts
      → Inv hashtext requests s
  Interleaved-Inv all_opening k = record {
    keyed = k;
    known = λ i. tt;
    keys = λ i j ne h. cc;
    rows = λ i j ne u v h. cc;
  }
  Interleaved-Inv (and_then before step) k = Step-Inv step (Interleaved-Inv before k)

  -- However the statements of any number of sessions are interleaved, whichever of them fail and
  -- whatever keys share an advisory lock, the committed tables are those of a sequence of
  -- submissions, one after the other: where account ids are unique, every interleaving is serial.
  pub sessions_serial :
      {t : Tables} {s : System}
      → IsKeyed t.accounts
      → Interleaved hashtext requests t s
      → Reached t s.tables
  sessions_serial k all_opening = start
  sessions_serial k (and_then before (move i m)) = sessions_serial k before
  sessions_serial k (and_then before (abandon i)) = sessions_serial k before
  sessions_serial k (and_then before (commit i c)) =
      next (sessions_serial k before) (Commit-Submitted c ((Interleaved-Inv before k).known i))
  sessions_serial k (and_then before (commit_unacknowledged i c)) =
      next (sessions_serial k before) (Commit-Submitted c ((Interleaved-Inv before k).known i))

  -- Where account ids are unique, two sessions with the same key that were both answered, in
  -- whatever order their statements ran, were given the same response.
  pub sessions_same_answer :
      {t : Tables} {s : System}
      → IsKeyed t.accounts
      → Interleaved hashtext requests t s
      → (i j : ℕ) {r r' : Response} → (requests i).idempotency_key ≡ (requests j).idempotency_key
      → s.stage i ≡ answered r
      → s.stage j ≡ answered r'
      → r ≡ r'
  sessions_same_answer {s} k run i j {r} {r'} same ei ej =
      let (ci, si) =
        subst (λ p. Known (requests i) p s.tables) ei ((Interleaved-Inv run k).known i) in
      let (cj, sj) =
        subst (λ p. Known (requests j) p s.tables) ej ((Interleaved-Inv run k).known j) in
      let codes : some r.status_code ≡ some r'.status_code =
        sym ci ∙ ap (λ x. status_of x s.tables.keys) same ∙ cj in
      si ∙ ap respond (some_inj codes) ∙ sym sj

  -- Where account ids are unique, a session that is about to record its key finds no record of it:
  -- the unique violation that `RecordIdempotency` forgives does not occur.
  pub sessions_no_duplicate :
      {t : Tables} {s : System}
      → IsKeyed t.accounts
      → Interleaved hashtext requests t s
      → (i : ℕ) → records_next (s.stage i) ≡ true
      → status_of (requests i).idempotency_key s.tables.keys ≡ none
  sessions_no_duplicate {s} k run i h =
      Known-new (requests i) (s.stage i) s.tables h ((Interleaved-Inv run k).known i)
