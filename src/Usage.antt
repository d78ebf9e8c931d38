-- ===== src/Usage.antt =====
-- Material that is issued to project sites: `projectUsageRequest` of
-- apps/api/src/infra/prisma/prismaProjectSitesRepository.ts and its routes in
-- apps/api/src/modules/projectSites.
pub mod Types
pub mod Issue
pub mod Input
pub mod Routes
pub mod Scope
pub mod Requests
pub mod Edits
mod Tests
