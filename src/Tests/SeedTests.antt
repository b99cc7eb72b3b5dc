-- ===== src/Tests/SeedTests.antt =====
-- The seed on empty tables of the engine in memory.
use qonto.Prelude.{suc, ◌≡◌, refl, false, Option, none, some, List, [], map, length}
use qonto.Prelude.Int.{ℤ}
use qonto.Database.Schema.{balance_of, add_transactions}
use qonto.Database.Engine.{Value}
use qonto.Program.Memory.{
  Stored, MemoryState, memory, answer, next_account_id, open_account, stamp_in, postings_of,
}
use qonto.Program.Memory.Laws.{memory-IsPostgres, runs, gives, stamped}
use qonto.Seed.{seed, seed_account, seed_transactions, seed_row}
use qonto.Seed.Laws.{Inserted, posting_with, IsSeedable}
use qonto.Seed.Settles.{SeedsAt, seed_settles}

opens :
    (s t : Stored) (o : Option ℤ) (e : balance_of (next_account_id s.tables) s.tables.accounts ≡ o)
    (rs : List (List Value))
    → open_account seed_account.organization_name seed_account.balance_cents seed_account.iban
        seed_account.bic s o e
      ≡ answer rs t
    → Inserted s.tables rs t.tables
opens s t none e rs h = (next_account_id s.tables, cc h, cc h)
opens s t (some n) e rs h = cc

memory-IsSeedable : IsSeedable memory
unfolding seed_row
memory-IsSeedable = record {
  counts = λ s. (refl, refl);
  inserts_account = λ s.
      runs
        (open_account seed_account.organization_name seed_account.balance_cents seed_account.iban
          seed_account.bic s.current
          (balance_of (next_account_id s.current.tables) s.current.tables.accounts) refl)
        s (λ rs t h. opens s.current t _ refl rs h);
  copies_rows = λ id s.
      gives []
        (record {
          tables =
              add_transactions
                (stamp_in s.current.tables (postings_of (map (seed_row id) seed_transactions)))
                s.current.tables;
          keyed = s.current.keyed;
        })
        s
        (
          stamp_in s.current.tables (map (posting_with id) seed_transactions),
          stamped (suc (length s.current.tables.transactions))
              (map (posting_with id) seed_transactions),
          refl,
        );
}

abbrev nothing : Stored
nothing = record {
  tables = record { accounts = []; keys = []; batches = []; transactions = [] };
  keyed = tt;
}

abbrev bare : MemoryState
bare = record { committed = nothing; current = nothing; dead = false }

seed_settles_example : SeedsAt memory bare (seed memory bare)
seed_settles_example = seed_settles memory memory-IsPostgres memory-IsSeedable bare
