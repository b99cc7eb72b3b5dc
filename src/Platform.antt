-- ===== src/Platform.antt =====
-- pkg/server, pkg/database and pkg/observability: what surrounds a request and a query.
pub mod Recorder
pub mod Fanout
pub mod Tracer
pub mod Span
pub mod Instruments
pub mod World
pub mod Middleware
pub mod Query
