-- ===== src/Aggregate.antt =====
-- internal/aggregate: from an orders payload to the numbers of the spreadsheets.
pub mod Sizes
pub mod Summary
pub mod Sponsors
pub mod Tags
pub mod Tests
