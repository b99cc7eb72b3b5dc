-- ===== src/LoadTest.antt =====
-- cmd/loadtestgen/main.go: the targets of a load test. The JSON text of a body is left to
-- encoding/json.
pub mod Files
use qonto.Prelude.{
  ℕ, zero, suc, ◌+◌, ◌-◌, ◌%◌, ◌≤◌, ◌<◌, ◌≡◌, false, refl, sym, ap, ◌∙◌, Bytes, codes, List, [],
  ◌∷◌, ◌++◌, length, arith,
}
use qonto.Prelude.Int.{ℤ, pos, ltb_ℤ}
use qonto.Go.Int64.{max_int64, div_100, mod_100}
use qonto.Go.Strconv.{decimal, format_int, format_int_02}
use qonto.Go.Base64
use qonto.Model.Money.{ok, parse_amount_cents, format_amount_cents}
use qonto.Model.Money.Exact.{parse_amount_cents-format_amount_cents}

pub record LoadTransfer : Type 0 where
  pub amount : Bytes
  pub currency : Bytes
  pub counterparty_name : Bytes
  pub counterparty_bic : Bytes
  pub counterparty_iban : Bytes
  pub description : Bytes

pub record BulkTransferBody : Type 0 where
  pub organization_bic : Bytes
  pub organization_iban : Bytes
  pub credit_transfers : List LoadTransfer

pub record VegetaTarget : Type 0 where
  pub method : Bytes
  pub url : Bytes
  pub header : List (Bytes × List Bytes)
  pub body : Bytes

abbrev pub zeros : ℕ → Bytes
zeros zero = []
zeros (suc n) = b'0' ∷ zeros n

-- `%0wd` of a number that is not negative
unfoldable pub zero_padded : ℕ → ℕ → Bytes
zero_padded w n = zeros (w - length (decimal n)) ++ decimal n

-- `fmt.Sprintf("%d.%02d", transferCents/100, transferCents%100)`
unfoldable pub amount_text : ℤ → Bytes
amount_text transfer_cents =
    format_int (div_100 transfer_cents) ++ (b'.' ∷ format_int_02 (mod_100 transfer_cents))

abbrev pub account_number : ℕ → ℕ → ℕ
account_number accounts i = i % accounts + 1

unfoldable pub post_body : ℕ → ℤ → ℕ → BulkTransferBody
unfolding zero_padded amount_text
post_body accounts transfer_cents i =
    let account = account_number accounts i in
    record {
      organization_bic = codes "LOADTST" ++ zero_padded 4 account;
      organization_iban = codes "FRLOADTEST" ++ zero_padded 17 account;
      credit_transfers =
          record {
            amount = amount_text transfer_cents;
            currency = codes "EUR";
            counterparty_name = codes "Load Test Counterparty";
            counterparty_bic = codes "CRLYFRPPTOU";
            counterparty_iban = codes "EE383680981021245685";
            description = codes "load test";
          }
          ∷ [];
    }

unfoldable pub post_target : (BulkTransferBody → Bytes) → Bytes → ℕ → ℤ → Bytes → ℕ → VegetaTarget
unfolding post_body
post_target marshal run_id accounts transfer_cents base_url i = record {
  method = codes "POST";
  url = base_url ++ codes "/transfers/bulk";
  header =
      (codes "Content-Type", codes "application/json" ∷ [])
      ∷ (codes "Idempotency-Key", (codes "load-test-" ++ (run_id ++ (codes "-" ++ decimal i))) ∷ [])
      ∷ [];
  body = Base64.encode (marshal (post_body accounts transfer_cents i));
}

unfoldable pub get_target : Bytes → Bytes → VegetaTarget
get_target base_url account_id = record {
  method = codes "GET";
  url = base_url ++ (codes "/accounts/" ++ (account_id ++ codes "/transactions?limit=20"));
  header = [];
  body = [];
}

-- `for i := range n`
abbrev pub targets_from : (ℕ → VegetaTarget) → ℕ → ℕ → List VegetaTarget
targets_from target i zero = []
targets_from target i (suc n) = target i ∷ targets_from target (suc i) n

unfoldable pub write_post_targets :
    (BulkTransferBody → Bytes) → Bytes → ℕ → ℕ → ℤ → Bytes → List VegetaTarget
unfolding post_target
write_post_targets marshal run_id requests accounts transfer_cents base_url =
    targets_from (post_target marshal run_id accounts transfer_cents base_url) 0 requests

printed : (n : ℕ) → format_amount_cents (pos n) ≡ amount_text (pos n)
unfolding format_amount_cents amount_text
printed n = let unsigned : ltb_ℤ (pos n) (pos 0) ≡ false = ground arith in rw unsigned refl

-- With a positive int64 of cents, the amount of every generated transfer is one that the service
-- reads as these cents.
pub parse_amount_cents-amount_text :
    (n : ℕ) → 0 < n → n ≤ max_int64 → parse_amount_cents (amount_text (pos n)) ≡ ok (pos n)
parse_amount_cents-amount_text n p h =
    ap parse_amount_cents (sym (printed n)) ∙ parse_amount_cents-format_amount_cents n p h
