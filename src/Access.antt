-- ===== src/Access.antt =====
-- Who may call which route: apps/api/src/modules/auth.
pub mod Roles
pub mod Paths
pub mod Sessions
pub mod Guard
mod Tests
pub mod Base32
