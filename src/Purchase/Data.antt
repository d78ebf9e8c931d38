-- ===== src/Purchase/Data.antt =====
-- The rows of the purchase tables, as the repositories of
-- apps/api/src/infra/prisma/prismaPurchasesRepository.ts map them to DTOs, and the inputs of
-- apps/api/src/modules/purchases/purchases.ts. Times are milliseconds, quantities units of 1/10000.
use company_erp.Base.{ℕ, String, Option, List, Field}
use company_erp.Base.Int.{ℤ}
use company_erp.Purchase.Status.{RequestStatus, RecordStatus, SourceType}

pub record RequestLine : Type 0 where
  pub material_id : Field String
  pub material_code : Field String
  pub material_name : String
  pub specification : Field String
  pub requested_quantity : ℤ
  pub unit : String
  pub remark : Field String

pub record PurchaseRequest : Type 0 where
  pub id : String
  pub request_no : String
  pub requester_name : String
  pub requester_employee_id : Option String
  pub department_name : String
  pub department_id : Option String
  pub project_site_id : Option String
  pub expected_arrival_date : Option String
  pub purpose : Option String
  pub status : RequestStatus
  pub submitted_at : Option ℕ
  pub reviewed_at : Option ℕ
  pub reviewed_by_employee_id : Option String
  pub reviewed_by_name : Option String
  pub review_remark : Option String
  pub remark : Option String
  pub lines : List RequestLine

-- What `normalizePurchaseRequestInput` builds: the review columns are not among its fields.
pub record RequestInput : Type 0 where
  pub request_no : Option String
  pub requester_name : Option String
  pub department_name : Option String
  pub requester_employee_id : Field String
  pub department_id : Field String
  pub project_site_id : Field String
  pub expected_arrival_date : Field String
  pub purpose : Field String
  pub remark : Field String
  pub status : Option RequestStatus
  pub lines : Option (List RequestLine)

pub record ReviewInput : Type 0 where
  pub reviewed_by_employee_id : Field String
  pub reviewed_by_name : Field String
  pub review_remark : Field String

pub record RecordLine : Type 0 where
  pub purchase_request_line_id : Field String
  pub material_id : Field String
  pub material_code : Field String
  pub material_name : String
  pub specification : Field String
  pub purchase_quantity : ℤ
  pub unit : String
  pub purchase_price : Field ℤ
  pub remark : Field String

pub record RecordInput : Type 0 where
  pub purchase_no : Option String
  pub purchase_request_no : Option String
  pub purchaser_name : Option String
  pub purchase_date : Option String
  pub purchase_request_id : Field String
  pub purchaser_employee_id : Field String
  pub contract_id : Field String
  pub purchase_platform : Field String
  pub platform_order_no : Field String
  pub shop_name : Field String
  pub supplier_party_id : Field String
  pub supplier_name_text : Field String
  pub purchase_description : Field String
  pub expected_arrival_date : Field String
  pub remark : Field String
  pub source_type : Option SourceType
  pub status : Option RecordStatus
  pub lines : Option (List RecordLine)
