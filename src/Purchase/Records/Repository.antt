-- ===== src/Purchase/Records/Repository.antt =====
-- `createPrismaPurchaseRecordRepository` of
-- apps/api/src/infra/prisma/prismaPurchasesRepository.ts, over a table of records.
use company_erp.Base.{
  String, or_else, Option, none, some, List, [], Result, ok, err, any, str_eq, if◌then◌else◌,
}
use company_erp.Database.{Table, DbError, unique_violation, record_not_found}
use company_erp.Purchase.Status.{RecordStatus, SourceType, offline}
use company_erp.Purchase.Data.{RecordLine, RecordInput}
use company_erp.Purchase.Repository.{
  RepositoryError, field_conflict, database, assign_text, assign_relation,
}

-- The columns of a purchase record that its routes write.
pub record PurchaseRecord : Type 0 where
  pub id : String
  pub purchase_no : String
  pub purchase_request_id : Option String
  pub purchase_request_no : Option String
  pub purchaser_name : String
  pub purchaser_employee_id : Option String
  pub source_type : SourceType
  pub purchase_platform : Option String
  pub platform_order_no : Option String
  pub shop_name : Option String
  pub supplier_party_id : Option String
  pub contract_id : Option String
  pub supplier_name_text : Option String
  pub purchase_description : Option String
  pub purchase_date : String
  pub expected_arrival_date : Option String
  pub status : RecordStatus
  pub remark : Option String
  pub lines : List RecordLine

-- `mapRecordConflict`
unfoldable pub map_record_conflict : DbError → RepositoryError
map_record_conflict (unique_violation targets) =
    if any (str_eq "purchase_no") targets
    then field_conflict "purchaseNo"
    else database (unique_violation targets)
map_record_conflict e = database e

-- `property !== undefined ? { property } : {}` on a nullable column.
abbrev assign_some : Option String → Option String → Option String
assign_some none old = old
assign_some (some s) old = some s

-- `recordCreateData`. The values that a checked input always has are given as defaults.
unfoldable pub record_create_data : RecordInput → String → PurchaseRecord
record_create_data input id = record {
  id = id;
  purchase_no = or_else input.purchase_no "";
  purchase_request_id = assign_relation input.purchase_request_id none;
  purchase_request_no = input.purchase_request_no;
  purchaser_name = or_else input.purchaser_name "";
  purchaser_employee_id = assign_relation input.purchaser_employee_id none;
  source_type = or_else input.source_type offline;
  purchase_platform = assign_text input.purchase_platform none;
  platform_order_no = assign_text input.platform_order_no none;
  shop_name = assign_text input.shop_name none;
  supplier_party_id = assign_relation input.supplier_party_id none;
  contract_id = assign_relation input.contract_id none;
  supplier_name_text = assign_text input.supplier_name_text none;
  purchase_description = assign_text input.purchase_description none;
  purchase_date = or_else input.purchase_date "";
  expected_arrival_date = assign_text input.expected_arrival_date none;
  status = or_else input.status RecordStatus.pending_purchase;
  remark = assign_text input.remark none;
  lines = or_else input.lines [];
}

-- `recordUpdateData`: lines that are given replace all lines.
unfoldable pub record_update_data : RecordInput → PurchaseRecord → PurchaseRecord
record_update_data input r = record r {
  purchase_no = or_else input.purchase_no r.purchase_no;
  purchase_request_id = assign_relation input.purchase_request_id r.purchase_request_id;
  purchase_request_no = assign_some input.purchase_request_no r.purchase_request_no;
  purchaser_name = or_else input.purchaser_name r.purchaser_name;
  purchaser_employee_id = assign_relation input.purchaser_employee_id r.purchaser_employee_id;
  source_type = or_else input.source_type r.source_type;
  purchase_platform = assign_text input.purchase_platform r.purchase_platform;
  platform_order_no = assign_text input.platform_order_no r.platform_order_no;
  shop_name = assign_text input.shop_name r.shop_name;
  supplier_party_id = assign_relation input.supplier_party_id r.supplier_party_id;
  contract_id = assign_relation input.contract_id r.contract_id;
  supplier_name_text = assign_text input.supplier_name_text r.supplier_name_text;
  purchase_description = assign_text input.purchase_description r.purchase_description;
  purchase_date = or_else input.purchase_date r.purchase_date;
  expected_arrival_date = assign_text input.expected_arrival_date r.expected_arrival_date;
  status = or_else input.status r.status;
  remark = assign_text input.remark r.remark;
  lines = or_else input.lines r.lines;
}

module _ (P : Table PurchaseRecord) where
  unfoldable pub create_record :
      RecordInput → P.State → Result RepositoryError (PurchaseRecord × P.State)
  create_record input s = elim (P.create s (record_create_data input)) [
    | ok (id, s') ↦ ok (record_create_data input id, s')
    | err e ↦ err (map_record_conflict e)
  ]

  -- A missing record is `null`.
  unfoldable pub update_record :
      String → RecordInput → P.State → Result RepositoryError (Option PurchaseRecord × P.State)
  update_record id input s = elim (P.update s id (record_update_data input)) [
    | ok (r, s') ↦ ok (some r, s')
    | err record_not_found ↦ ok (none, s)
    | err e ↦ err (map_record_conflict e)
  ]
