-- ===== src/Model.antt =====
-- internal/transfer/model: the domain types, amounts and cursors.
pub mod Money
pub mod Pagination
pub mod Transfer
