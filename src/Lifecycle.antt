-- ===== src/Lifecycle.antt =====
-- The life of the process: cmd/server/main.go, and what it calls of pkg/observability/telemetry.go,
-- pkg/database (pool.go, migrate.go, bootstrap.go) and pkg/server (server.go, runtime.go).
pub mod Flow
pub mod Telemetry
pub mod Startup
pub mod Watch
pub mod Release
pub mod Serve
pub mod HttpServer
