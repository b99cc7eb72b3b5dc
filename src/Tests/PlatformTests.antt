-- ===== src/Tests/PlatformTests.antt =====
-- Recorded responses, log handlers and the labels of queries.
use qonto.Prelude.{ℕ, suc, ◌≡◌, refl, false, Bytes, none, List, [], ◌∷◌, take, All, codes, arith}
use qonto.Prelude.Int.{pos}
use qonto.Model.Money.{ok, parse_amount_cents}
use qonto.LoadTest.{amount_text, parse_amount_cents-amount_text}
use qonto.Platform.Recorder.{StatusRecorder, header, served, chunks, join, served-take}
use qonto.Platform.Fanout.{LogRecord, LogHandler, fanout_handle, fanout_enabled, fanout_disabled}
use qonto.Platform.Tracer.{ends_word, sql_operation, sql_operation-ends_word}

labels :
    (sql_operation (codes "SELECT pg_advisory_xact_lock(hashtext($1))") ≡ codes "SELECT")
    × (sql_operation (codes "  insert\tinto x ") ≡ codes "INSERT")
    × (sql_operation (codes " \n") ≡ codes "UNKNOWN")
    × (sql_operation (codes "(select 1)") ≡ [])
unfolding sql_operation
labels = (refl, refl, refl, refl)

operation_of_insert :
    All (λ c. ends_word c ≡ false) (sql_operation (codes "SELECT count(*) FROM bank_accounts"))
operation_of_insert = sql_operation-ends_word (codes "SELECT count(*) FROM bank_accounts")

abbrev pieces : List Bytes
pieces = codes "{\"error\":" ∷ codes "\"internal error\"}" ∷ []

abbrev fresh : StatusRecorder
fresh = record { status = pos 200; body = [] }

served-take_example :
    (served (header (pos 500) ∷ chunks pieces) fresh).body ≡ take 1024 (join pieces)
served-take_example = served-take (pos 500) pieces fresh refl refl

-- A handler that counts what it is given, but is never enabled.
abbrev silent : LogHandler ℕ
silent = record { enabled = λ _. false; handle = λ _ n. (none, suc n) }

abbrev hello : LogRecord
hello = record { level = pos 0; message = "hello" }

nothing_logged : fanout_handle (silent ∷ silent ∷ []) hello 0 ≡ ([], 0)
unfolding fanout_enabled
nothing_logged = fanout_disabled (silent ∷ silent ∷ []) hello 0 refl

parse_amount_cents-amount_text_example : parse_amount_cents (amount_text (pos 1)) ≡ ok (pos 1)
parse_amount_cents-amount_text_example =
    parse_amount_cents-amount_text 1 (omega arith) (omega arith)
