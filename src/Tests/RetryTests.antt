-- ===== src/Tests/RetryTests.antt =====
-- A request that is sent twice to the program on the engine in memory.
use qonto.Prelude.{refl, none, some, [], codes, ◌∷◌}
use qonto.Service.Once.{start}
use qonto.Program.Retry.{service, IsOnce, retry_safe}
use qonto.Program.Memory.{memory, MemoryState}
use qonto.Program.Memory.Laws.{memory-IsPostgres}
use qonto.Server.Dto.{BulkTransferRequestDto}
use qonto.Server.Handler.{Library, SubmitRequest, handle_submit_bulk_transfer}
use qonto.Tests.Sample.{ready, no_context}

abbrev pub sent : BulkTransferRequestDto
sent = record {
  organization_bic = "OIVUSCLQXXX";
  organization_iban = "FR10474608000002006107";
  credit_transfers =
      record {
        amount = codes "14.50";
        currency = "EUR";
        counterparty_name = "Bip Bip";
        counterparty_bic = "CRLYFRPPTOU";
        counterparty_iban = "EE383680981021245685";
        description = "Wonderland";
      }
      ∷ [];
}

abbrev pub reads_sent : Library
reads_sent = record { unmarshal = λ _. some sent; hash_body = λ _. "hash"; validate = λ _ _. none }

-- No header: the key is the hash of the body.
abbrev attempt : SubmitRequest
attempt = record { ctx = no_context; body = some (codes "{}"); idempotency_key = "" }

abbrev after_first : MemoryState
after_first = (handle_submit_bulk_transfer reads_sent (service memory) attempt ready).state

retry_safe_example :
    IsOnce memory ready after_first
      (handle_submit_bulk_transfer reads_sent (service memory) attempt ready)
      (handle_submit_bulk_transfer reads_sent (service memory) attempt after_first)
retry_safe_example =
    retry_safe memory memory-IsPostgres reads_sent attempt attempt ready after_first (codes "{}")
      refl refl refl start
