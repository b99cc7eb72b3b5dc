-- ===== src/Tests/Sample.antt =====
-- An organisation, two batches and a history, as in the tests of internal/transfer.
use qonto.Prelude.{ℕ, String, none, List, [], ◌∷◌, false, refl}
use qonto.Prelude.Int.{pos}
use qonto.Go.Errors.{other}
use qonto.Go.Action.{pure, fail}
use qonto.Go.Context.{Context}
use qonto.Model.Transfer.{CreditTransfer, BulkTransferRequest, Account}
use qonto.Model.Pagination.{TransactionHistoryItem}
use qonto.Database.Schema.{Tables}
use qonto.Program.Memory.{Stored, MemoryState}
use qonto.Service.Interfaces.{Repository}
use qonto.Service.History.Pages.{select_page}

abbrev pub acme : Account
acme = record {
  id = pos 1;
  organization_name = "ACME Corp";
  balance_cents = pos 10000000;
  iban = "FR10474608000002006107";
  bic = "OIVUSCLQXXX";
}

abbrev pub transfer_of_cents : ℕ → CreditTransfer
transfer_of_cents n = record {
  amount_cents = pos n;
  currency = "EUR";
  counterparty_name = "Bip Bip";
  counterparty_bic = "CRLYFRPPTOU";
  counterparty_iban = "EE383680981021245685";
  description = "Wonderland";
}

abbrev pub request_of_cents : String → List CreditTransfer → BulkTransferRequest
request_of_cents key ts = record {
  organization_bic = "OIVUSCLQXXX";
  organization_iban = "FR10474608000002006107";
  credit_transfers = ts;
  idempotency_key = key;
}

abbrev pub affordable : BulkTransferRequest
affordable = request_of_cents "k1" (transfer_of_cents 1450 ∷ transfer_of_cents 6123800 ∷ [])

abbrev pub unaffordable : BulkTransferRequest
unaffordable = request_of_cents "k2" (transfer_of_cents 10000001 ∷ [])

abbrev pub opened : Tables
opened = record { accounts = acme ∷ []; keys = []; batches = []; transactions = [] }

abbrev pub stored : Stored
stored = record { tables = opened; keyed = (refl, tt) }

abbrev pub ready : MemoryState
ready = record { committed = stored; current = stored; dead = false }

abbrev pub no_context : Context
no_context = record { tx = false; phase = none }

abbrev pub item : ℕ → ℕ → TransactionHistoryItem
item id time = record {
  id = pos id;
  counterparty_name = "Bip Bip";
  counterparty_iban = "EE383680981021245685";
  counterparty_bic = "CRLYFRPPTOU";
  amount_cents = pos 1450;
  currency = "EUR";
  description = "Wonderland";
  created_at = pos time;
}

abbrev pub items : List TransactionHistoryItem
items = item 3 20 ∷ item 2 10 ∷ item 1 10 ∷ []

-- A repository that only lists `items`.
abbrev pub lister : Repository (Unit {0})
lister = record {
  advisory_lock = λ _ _. fail (other "not here");
  find_idempotency_record_status = λ _ _. fail (other "not here");
  record_idempotency = λ _ _ _. fail (other "not here");
  find_account_for_update = λ _ _ _. fail (other "not here");
  debit_account = λ _ _ _. fail (other "not here");
  insert_batch = λ _ _ _ _. fail (other "not here");
  insert_transactions = λ _ _ _ _. fail (other "not here");
  transaction_history_page = λ _ _ cursor n. pure (select_page items cursor n);
}
