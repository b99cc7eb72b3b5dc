-- ===== src/Platform/Instruments.antt =====
-- The instruments that the packages create when they are loaded, on the meter of
-- pkg/observability/span.go, and the values that are measured with them.
use qonto.Prelude.{String, Bytes, Option, none, some}
use qonto.Prelude.Int.{ℤ}

pub data Kind : Type 0 where
  int64_counter int64_histogram int64_up_down_counter : Kind
  float64_histogram float64_observable_gauge : Kind

pub record Instrument : Type 0 where
  pub kind : Kind
  pub name : String
  pub description : String
  pub unit : Option String

-- A key with a text or an int.
pub data Attribute : Type 0 where
  text : String → Bytes → Attribute
  int : String → ℤ → Attribute

abbrev seconds : Option String
seconds = some "s"

pub record RedMetrics : Type 0 where
  pub requests_total : Instrument
  pub duration : Instrument
  pub in_flight : Instrument

-- pkg/server/metrics.go
abbrev pub http_metrics : RedMetrics
http_metrics = record {
  requests_total = record {
    kind = int64_counter;
    name = "http_requests_total";
    description = "Total incoming HTTP requests, by method/route/status_code";
    unit = none;
  };
  duration = record {
    kind = float64_histogram;
    name = "http_request_duration_seconds";
    description = "End-to-end HTTP request latency";
    unit = seconds;
  };
  in_flight = record {
    kind = int64_up_down_counter;
    name = "http_in_flight_requests";
    description = "HTTP requests currently being processed";
    unit = none;
  };
}

pub record BusinessMetrics : Type 0 where
  pub bulk_transfers_total : Instrument
  pub transfer_amount_cents_total : Instrument
  pub batch_size : Instrument

-- internal/transfer/server/metrics.go
abbrev pub biz_metrics : BusinessMetrics
biz_metrics = record {
  bulk_transfers_total = record {
    kind = int64_counter;
    name = "bulk_transfers_total";
    description = "Bulk transfer requests by business outcome";
    unit = none;
  };
  transfer_amount_cents_total = record {
    kind = int64_counter;
    name = "transfer_amount_cents_total";
    description = "Total amount, in cents, of successfully applied bulk transfers";
    unit = none;
  };
  batch_size = record {
    kind = int64_histogram;
    name = "bulk_transfer_batch_size";
    description = "Number of individual transfers per bulk transfer request";
    unit = none;
  };
}

-- pkg/database/metrics.go
abbrev pub concurrency_conflicts : Instrument
concurrency_conflicts = record {
  kind = int64_counter;
  name = "db_concurrency_conflicts_total";
  description = "Postgres serialization failures or deadlocks across all queries";
  unit = none;
}

abbrev pub query_duration : Instrument
query_duration = record {
  kind = float64_histogram;
  name = "db_query_duration_seconds";
  description = "Duration of individual SQL statements and COPY operations, by operation";
  unit = seconds;
}

abbrev pub queries_total : Instrument
queries_total = record {
  kind = int64_counter;
  name = "db_queries_total";
  description = "Individual SQL statements and COPY operations executed, by operation and outcome";
  unit = none;
}

abbrev pub pool_wait_duration : Instrument
pool_wait_duration = record {
  kind = float64_observable_gauge;
  name = "db_connection_pool_wait_duration_seconds";
  description = "Cumulative average time spent waiting to acquire a pooled connection";
  unit = seconds;
}

-- pkg/txn/metrics.go
abbrev pub transaction_duration : Instrument
transaction_duration = record {
  kind = float64_histogram;
  name = "db_transaction_duration_seconds";
  description = "Time spent inside a BEGIN...COMMIT/ROLLBACK block";
  unit = seconds;
}

-- internal/transfer/store/metrics.go
abbrev pub lock_wait_duration : Instrument
lock_wait_duration = record {
  kind = float64_histogram;
  name = "db_lock_wait_duration_seconds";
  description = "Latency of the SELECT ... FOR UPDATE bank_accounts lookup";
  unit = seconds;
}

-- internal/transfer/service/metrics.go
abbrev pub balance_invariant_violations : Instrument
balance_invariant_violations = record {
  kind = int64_counter;
  name = "balance_invariant_violations_total";
  description =
      "A bug or race condition let an account balance go negative — critical, page immediately if > 0";
  unit = none;
}
