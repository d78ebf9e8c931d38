-- ===== src/Usage/Types.antt =====
-- Requests of project sites for material, and the movements that issue it: the tables that
-- `createPrismaProjectUsageRequestRepository` of
-- apps/api/src/infra/prisma/prismaProjectSitesRepository.ts reads and writes. A quantity column
-- counts thousandths (`Decimal(14, 3)`), a price or charge column units of 1/10000.
use company_erp.Base.{ℕ, String, Bool, Option, Field}
use company_erp.Base.Int.{ℤ}
use company_erp.Replenishment.Open.{UsageStatus}
use company_erp.Inventory.Types.{MovementType, SourceType}

pub data ServiceMode : Type 0 where
  direct subcontracted : ServiceMode

pub data IssueTarget : Type 0 where
  subcontractor project_site : IssueTarget

-- `ChargePriceSource`
pub data ChargePriceSource : Type 0 where
  project_site_price : ChargePriceSource

-- What is included of the site and of the material of a request.
pub record Site : Type 0 where
  pub service_mode : ServiceMode
  pub subcontractor_name : Option String

pub record Material : Type 0 where
  pub is_project_site_sale_enabled : Bool
  pub project_site_sale_price : Option ℤ
  pub project_site_sale_remark : Option String

-- A row of the usage requests. Its quantities are written by this code alone, from input that was
-- checked to be positive and from sums of it.
pub record UsageRequest : Type 0 where
  pub id : String
  pub request_no : String
  pub request_date : String
  pub project_site_id : String
  pub warehouse_id : String
  pub material_id : String
  pub requested_quantity : ℕ
  pub approved_quantity : Option ℕ
  pub issued_quantity : ℕ
  pub unit : String
  pub purpose : Option String
  pub requested_by : Option String
  pub submitted_by_account_id : Option String
  pub submitted_by_name_snapshot : Option String
  pub submitted_by_phone_snapshot : Option String
  pub expected_date : Option String
  pub status : UsageStatus
  pub outbound_no : Option String
  pub unit_charge_price : Option ℤ
  pub charge_amount : ℤ
  pub charge_price_source : Option ChargePriceSource
  pub charge_remark : Option String
  pub last_issued_at : Option String
  pub last_received_by_name : Option String
  pub remark : Option String

-- A row of the movements, with the columns that an issue writes.
pub record StockMovement : Type 0 where
  pub id : String
  pub movement_no : String
  pub movement_date : String
  pub movement_type : MovementType
  pub source_type : Option SourceType
  pub issue_target_type : Option IssueTarget
  pub warehouse_id : String
  pub material_id : String
  pub quantity : ℤ
  pub unit : String
  pub unit_charge_price : Option ℤ
  pub charge_amount : Option ℤ
  pub charge_price_source : Option ChargePriceSource
  pub charge_remark : Option String
  pub project_site_id : Option String
  pub subcontractor_name : Option String
  pub requested_by : Option String
  pub handled_by : Option String
  pub received_by_name : Option String
  pub purpose : Option String
  pub remark : Option String
  pub usage_request_id : Option String

-- `IssueProjectUsageRequestInput`, whose quantity counts units of 1/10000.
pub record IssueInput : Type 0 where
  pub outbound_no : String
  pub movement_date : String
  pub quantity : ℕ
  pub handled_by : Field String
  pub received_by_name : Field String
  pub remark : Field String

-- `UpdateProjectUsageRequestInput`, whose quantities count units of 1/10000.
pub record UsageInput : Type 0 where
  pub request_no : Option String
  pub request_date : Option String
  pub project_site_id : Option String
  pub warehouse_id : Option String
  pub material_id : Option String
  pub requested_quantity : Option ℕ
  pub approved_quantity : Field ℕ
  pub unit : Option String
  pub purpose : Field String
  pub requested_by : Field String
  pub submitted_by_account_id : Field String
  pub submitted_by_name_snapshot : Field String
  pub submitted_by_phone_snapshot : Field String
  pub expected_date : Field String
  pub status : Option UsageStatus
  pub remark : Field String
