-- ===== src/Purchase.antt =====
-- Purchase requests and purchase records.
pub mod Status
pub mod Data
pub mod Input
pub mod Repository
pub mod Handlers
pub mod Records
pub mod Filters
mod Tests
