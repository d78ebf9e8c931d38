-- ===== src/Lib.antt =====
-- company-erp: the API of a company's ERP. A web client talks to a Fastify server
-- (apps/api), whose routes check a request body, read and change PostgreSQL tables through Prisma
-- repositories, and write an audit trail in the same transaction. Types, status codes and small
-- rules are shared with the client (packages/shared).
--
-- Base: what every part uses. Base.Json is an untyped body, Base.Input the helpers that check its
--   fields (normalizeNullableString and its kin, of which each module of the API has a copy),
--   Base.Outcome results and the three cases of an optional field (absent, null, given).
-- Database: one table as Prisma's client gives it, a record of operations and laws that the
--   repositories take as a parameter; Database.Model fills it with a table in memory.
-- Audit: writeAuditLog of apps/api/src/appRouteContext.ts, over a trail that is a parameter too
--   (Audit.Model fills it), and runWithAuditTransaction with the runInTransaction of
--   apps/api/src/infra/prisma/prismaAppComposition.ts.
-- Purchase: purchase requests and records. Purchase.Status is the lifecycle of
--   packages/shared/src/index.ts, Purchase.Input the checks of
--   apps/api/src/modules/purchases/purchases.ts, Purchase.Repository
--   apps/api/src/infra/prisma/prismaPurchasesRepository.ts, and Purchase.Handlers the routes of
--   apps/api/src/modules/purchases/purchaseRoutes.ts, each from the state that its handler read and
--   the state that its transaction met, which need not be the same.
--   Purchase.Records is the same for purchase records, and what recording a purchase does to the
--   request that it is for. Purchase.Filters are the filters of both lists.
-- Inventory: stock movements. Inventory.Input is apps/api/src/modules/inventory/inventory.ts,
--   Inventory.Store the tables that a movement touches, as parameters, with a model in memory,
--   Inventory.Repository createMovement and the receiving rollup of purchase records
--   (apps/api/src/infra/prisma/prismaInventoryRepository.ts), and Inventory.Routes the route that
--   records a movement (apps/api/src/modules/inventory/inventoryRoutes.ts).
-- Replenishment: what to buy. Replenishment.Quantity is calculateReplenishmentSuggestionQuantity of
--   packages/shared/src/index.ts, Replenishment.Totals and Replenishment.Open the sums by key that
--   it starts from, and Replenishment.Suggestions the update and the conversion of a suggestion,
--   Replenishment.Generate the loop that makes them
--   (apps/api/src/infra/prisma/prismaReplenishmentRepository.ts). Replenishment.Input are the body
--   checks of apps/api/src/modules/inventory/replenishment.ts, Replenishment.Routes their routes in
--   apps/api/src/modules/inventory/inventoryRoutes.ts.
-- Access: who may call which route. Access.Roles is MVP_PERMISSION_MATRIX of
--   packages/shared/src/index.ts, Access.Paths the route table of
--   apps/api/src/modules/auth/routePermission.ts, Access.Sessions accounts and sessions
--   (sessionService.ts beside it) with the store that keeps them in memory, and Access.Guard the
--   hook that decides on each request (authGuards.ts), over any store of sessions. SHA-256 is a
--   parameter. Access.Base32 is base32Encode and base32Decode of mfa.ts beside it.
-- Usage: requests of project sites for material. Usage.Input are the body checks of
--   apps/api/src/modules/projectSites/projectSites.ts, Usage.Scope the sites that a caller is
--   confined to (apps/api/src/appRouteContext.ts), Usage.Requests and Usage.Issue create, update and
--   issue of apps/api/src/infra/prisma/prismaProjectSitesRepository.ts, Usage.Edits and Usage.Routes
--   their routes in apps/api/src/modules/projectSites/projectSiteRoutes.ts. Its quantity
--   columns count thousandths, as the database does, and what is written there is rounded.
-- ListPaging: apps/api/src/listPaging.ts.
--
-- Numbers of JSON and of columns are decimals in units of 1/10000. What the code computes from them
-- are IEEE doubles, rounded to 53 bits (Base.Double), from which a column or toFixed rounds again.
-- Times are natural numbers, texts are sequences of characters, and dates stay texts; Base.Day says
-- which day a movement's date text is, if it is one. Every definition is total. Three loops
-- have fuel: the inner loop of base32Encode has a round for each bit, which is proved to be enough,
-- and printing an index has more rounds than the number has digits. Rounding to a
-- double halves a number at most 1200 times, which takes any of less than 1253 bits to 53: a number
-- of a body is below 2^1024 and counted in units of 2^-80, and the factors of a product are a price
-- and a quantity that was found to be within a column of 14 digits.
--
-- Not modelled: the branch of runWithAuditTransaction for an application built without
-- runInTransaction, which rolls nothing back; list and detail queries beyond their filters, the
-- JSON of the audited rows, the web client, spreadsheet import, file storage, start-up and
-- operation scripts, and the database itself beyond the laws of Database. A transaction is atomic, and so is each call inside it.
pub mod Base
pub mod Database
pub mod Audit
pub mod Purchase
pub mod Inventory
pub mod Replenishment
pub mod ListPaging
pub mod Access
pub mod Usage
