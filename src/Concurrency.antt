-- ===== src/Concurrency.antt =====
-- Submissions side by side: sessions of PostgreSQL, each in its own transaction, that wait for one
-- another at `pg_advisory_xact_lock` and at `SELECT ... FOR UPDATE`.
pub mod Session
pub mod Calls
pub mod System
pub mod Known
pub mod Invariant
pub mod Serial
pub mod Progress
