-- ===== src/Purchase/Records.antt =====
-- Purchase records: what was bought, for a request or without one.
pub mod Input
pub mod Repository
pub mod Routes
mod Tests
