-- ===== src/Server.antt =====
-- internal/transfer/server: the HTTP layer.
pub mod Dto
pub mod Metrics
pub mod Response
pub mod Handler
pub mod HistoryHandler
pub mod Rejection
pub mod HistoryCases
pub mod Routes
pub mod Http
pub mod Tags
