-- ===== src/Store.antt =====
-- internal/transfer/store: the statements of the bulk-transfer feature.
pub mod Session
pub mod History
pub mod Idempotency
pub mod Accounts
pub mod Transactions
pub mod Laws
pub mod Observed
pub mod Steps
