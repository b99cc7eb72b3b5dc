-- ===== src/Tests/ListingTests.antt =====
-- Two pages of an account with three rows, on an engine that answers the queries of a page.
use qonto.Prelude.{ℕ, refl, arith, false, some, Option, List, [], ◌∷◌, map, take}
use qonto.Prelude.Int.{pos}
use qonto.Go.Time.{is_zero}
use qonto.Model.Pagination.{Cursor, TransactionHistoryItem, encode_cursor}
use qonto.Model.Pagination.RoundTrip.{decode_cursor-encode_cursor}
use qonto.Database.Schema.{Tables, TransactionRow, posting_of}
use qonto.Database.Engine.{
  Engine, int, timestamp, Condition, equals, expr, Statement, select, Select, Reply, Target,
}
use qonto.Program.Memory.{memory, MemoryState, Stored}
use qonto.Program.Listing.{Shows, history_page}
use qonto.Service.History.{list_transaction_history}
use qonto.Service.History.Pages.{keep}
use qonto.Store.History.{history_of, item_values, ReadsHistory}
use qonto.Store.Laws.{repository}
use qonto.Tests.Sample.{opened, no_context, transfer_of_cents}

abbrev row_at : ℕ → ℕ → TransactionRow
row_at id time = record {
  id = pos id;
  created_at = pos time;
  posting = posting_of (pos 1) (pos 1) (transfer_of_cents 1450);
}

abbrev archive_tables : Tables
archive_tables = record opened { transactions = row_at 1 10 ∷ row_at 2 20 ∷ row_at 3 10 ∷ [] }

abbrev archived : MemoryState
archived =
    let stored : Stored = record { tables = archive_tables; keyed = (refl, tt) } in
    record { committed = stored; current = stored; dead = false }

abbrev answer_rows : List TransactionHistoryItem → ℕ → Reply
answer_rows items n = Reply.rows (map item_values (take n items))

abbrev answer_page : Select → Tables → Reply
answer_page q t = answer_conditions q.conditions q.limit
  where
    answer_conditions : List Condition → Option ℕ → Reply
    answer_conditions (equals _ (int id) ∷ []) (some n) =
        answer_rows (history_of id t.transactions) n
    answer_conditions (equals _ (int id) ∷ expr _ (timestamp at ∷ int last ∷ []) ∷ []) (some n) =
        answer_rows (keep (record { created_at = at; id = last }) (history_of id t.transactions)) n
    answer_conditions _ _ = Reply.rows []

abbrev run_archive : Target → Statement → MemoryState → Reply × MemoryState
run_archive g (select q) s = (answer_page q s.committed.tables, s)
run_archive g q s = memory.run g q s

abbrev archive : Engine
archive = record {
  State = MemoryState;
  committed = memory.committed;
  current = memory.current;
  aborted = memory.aborted;
  next_batch_id = memory.next_batch_id;
  stamp = memory.stamp;
  to_sql = memory.to_sql;
  begin = memory.begin;
  commit = memory.commit;
  rollback = memory.rollback;
  run = run_archive;
}

archive-ReadsHistory : ReadsHistory archive
archive-ReadsHistory = record {
  newest = λ account_id n s. (refl, refl);
  older = λ account_id c n s. (refl, refl);
}

abbrev behind : Cursor
behind = record { created_at = pos 20; id = pos 2 }

history_page_example :
    Shows archive archived (keep behind (history_of (pos 1) archive_tables.transactions)) 1 (
      list_transaction_history
        (repository archive)
        no_context
        (pos 1)
        (encode_cursor behind)
        1
        archived)
unfolding is_zero
history_page_example =
    history_page archive archive-ReadsHistory no_context (pos 1) (encode_cursor behind) behind 1
      archived refl
      (decode_cursor-encode_cursor behind (omega arith, omega arith) (omega arith, omega arith))
