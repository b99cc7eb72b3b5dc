-- ===== src/Tests.antt =====
-- Runs on concrete input, and each theorem with hypotheses at one such input.
pub mod Sample
pub mod ModelTests
pub mod ServiceTests
pub mod ServerTests
pub mod StoreTests
pub mod PlatformTests
pub mod ConcurrencyTests
pub mod LifecycleTests
pub mod RetryTests
pub mod ListingTests
pub mod SeedTests
pub mod GrowingTests
pub mod LoadTestTests
pub mod ObservedTests
pub mod MiddlewareTests
pub mod HttpTests
