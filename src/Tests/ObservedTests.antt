-- ===== src/Tests/ObservedTests.antt =====
-- A submission with all its telemetry, and a commit that fails unseen.
use qonto.Prelude.{suc, ℕ, ◌*◌, ◌≡◌, refl, true, Bool, Bytes, codes, Option, none, some, []}
use qonto.Prelude.Int.{pos}
use qonto.Go.Errors.{Error, other, ok, err, wrap}
use qonto.Go.Time.{Time}
use qonto.Go.Context.{Context}
use qonto.Database.Engine.{Engine, Statement}
use qonto.Database.Laws.{IsPostgres}
use qonto.Database.Traced.{traced}
use qonto.Database.Traced.Laws.{traced-IsPostgres}
use qonto.Platform.Span.{SpanStatus, unset, ok_status, error_status}
use qonto.Platform.World.{span_ok, World, emit}
use qonto.Program.Memory.{memory, MemoryState}
use qonto.Program.Memory.Laws.{memory-IsPostgres}
use qonto.Tests.Sample.{no_context, ready}
use qonto.Txn.{Exit, returned}
use qonto.Txn.Observed.{atomic_observed}
use qonto.Txn.Observed.Status.{opened, status_after, atomic_hides_failure}

-- A clock that ticks once a millisecond.
abbrev pub ticking : ℕ → Time
ticking n = pos (n * 1_000_000)

abbrev pub sampled : ℕ → Bool
sampled _ = true

abbrev pub any_sql : Statement → Bytes
any_sql _ = codes "SELECT 1"

abbrev pub no_args : Statement → Option Bytes
no_args _ = none

abbrev pub quiet : World MemoryState
quiet = record { state = ready; readings = 0; spans = 0; emitted = [] }

traced-IsPostgres_run : IsPostgres (traced ticking sampled any_sql no_args no_context 1 memory)
traced-IsPostgres_run =
    traced-IsPostgres ticking sampled any_sql no_args no_context 1 memory memory-IsPostgres

-- The engine in memory, with the number of statements that it was sent.
abbrev numbered : Engine
numbered = record {
  State = MemoryState × ℕ;
  committed = λ s. memory.committed s.0;
  current = λ s. memory.current s.0;
  aborted = λ s. memory.aborted s.0;
  next_batch_id = λ s. memory.next_batch_id s.0;
  stamp = λ s ps. memory.stamp s.0 ps;
  to_sql = memory.to_sql;
  begin = λ s. let (x, t) = memory.begin s.0 in (x, (t, suc s.1));
  commit = λ s. let (x, t) = memory.commit s.0 in (x, (t, suc s.1));
  rollback = λ s. let (x, t) = memory.rollback s.0 in (x, (t, suc s.1));
  run = λ target q s. let (r, t) = memory.run target q s.0 in (r, (t, suc s.1));
}

abbrev number : numbered.State → ℕ
number s = s.1

abbrev unsent : World numbered.State
unsent = record { state = (ready, 0); readings = 0; spans = 0; emitted = [] }

abbrev pub idle : World ℕ
idle = record { state = 0; readings = 0; spans = 0; emitted = [] }

-- The status rules of OpenTelemetry's SDK.
abbrev pub set_status : SpanStatus → SpanStatus → SpanStatus
set_status old ok_status = ok_status
set_status ok_status new = ok_status
set_status old (error_status text) = error_status text
set_status old unset = old

abbrev fine : World ℕ → Option Error × World ℕ
fine w = (none, w)

abbrev refused : World ℕ → Option Error × World ℕ
refused w = (some (other "connection reset"), w)

-- A function that records an outcome, as `SubmitBulkTransfer` does.
abbrev succeeding : ℕ → Context → World ℕ → Exit ℕ × World ℕ
succeeding span ctx w = (returned (ok 204), emit (span_ok span []) w)

atomic_hides_failure_run :
    let (r, w') = atomic_observed ticking fine refused fine 0 no_context succeeding idle in
    (r ≡ returned (err (wrap "commit transaction" (other "connection reset"))))
    × (status_after set_status (λ _. "reset") 1 unset w'.emitted ≡ ok_status)
atomic_hides_failure_run =
    atomic_hides_failure set_status (λ _. "reset")
      (λ s. elim s as (λ t. set_status ok_status t ≡ ok_status) [
        | unset ↦ refl
        | ok_status ↦ refl
        | error_status t ↦ refl
      ])
      (λ s. refl) ticking fine refused fine 0 no_context succeeding idle _ 204
      (opened ticking 0 idle).emitted [] [] (other "connection reset") refl refl refl refl
      ([], refl)
