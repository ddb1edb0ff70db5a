-- ===== src/Snapshot.antt =====
-- internal/snapshot: a snapshot of one fetch, and the refresher that keeps the current one.
pub mod Snapshot
pub mod Tags
pub mod Refresher
pub mod Goroutines
pub mod Tests
