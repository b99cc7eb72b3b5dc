-- ===== src/Service.antt =====
-- internal/transfer/service: the business rules.
pub mod Interfaces
pub mod Submit
pub mod Contract
pub mod Outcome
pub mod Refinement
pub mod Once
pub mod Batches
pub mod Observed
pub mod Funds
pub mod Verdict
pub mod History
pub mod Task
