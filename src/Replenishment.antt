-- ===== src/Replenishment.antt =====
-- Replenishment: what to buy so that stock stays safe
-- (apps/api/src/infra/prisma/prismaReplenishmentRepository.ts,
-- apps/api/src/modules/inventory/replenishment.ts).
pub mod Quantity
pub mod Totals
pub mod Open
pub mod Suggestions
pub mod Input
pub mod Generate
pub mod Routes
mod Tests
