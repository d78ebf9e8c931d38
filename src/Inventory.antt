-- ===== src/Inventory.antt =====
-- Stock: movements, receiving, and balances (apps/api/src/modules/inventory,
-- apps/api/src/infra/prisma/prismaInventoryRepository.ts, packages/shared/src/index.ts).
pub mod Types
pub mod Input
pub mod Store
pub mod Repository
pub mod Routes
mod Tests
