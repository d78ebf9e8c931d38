-- ===== src/Purchase/Records/Tests.antt =====
-- The purchase record theorems at concrete records.
use company_erp.Base.{
  ◌≡◌, refl, sym, ◌∙◌, subst, String, true, Option, none, some, [], ◌∷◌, absent, given, trim,
  String-discrete, some_inj, some_not_none, if_pos, if_neg,
}
use company_erp.Base.Int.{pos}
use company_erp.Base.Json.{Json, Properties, obj, str, num, arr, end, property, nil, cons, get}
use company_erp.Base.Input.{
  trimmed_text, nullable_string, required_string, positive_number, nonnegative_number,
}
use company_erp.Base.Decimal.{decimal}
use company_erp.Database.{Table}
use company_erp.Database.Model.{Rows, put, memory}
use company_erp.Audit.{run_in_transaction, write_audit_log}
use company_erp.Audit.Model.{trail}
use company_erp.Purchase.Status.{RequestStatus, RecordStatus, SourceType, platform, source_type_of}
use company_erp.Purchase.Data.{PurchaseRequest, RecordInput, RecordLine}
use company_erp.Purchase.Handlers.Invariant.{AllReviewed, IsReviewed}
use company_erp.Purchase.Records.Input.{normalize_record_input, record_lines}
use company_erp.Purchase.Records.Input.Laws
use company_erp.Purchase.Records.Input.Laws.{IsNewRecord, Sourced}
use company_erp.Purchase.Records.Repository.{PurchaseRecord, record_update_data, update_record}
use company_erp.Purchase.Records.Routes.{World, success, update_reply, post_record, patch_record}
use company_erp.Purchase.Records.Routes.Effects
use company_erp.Purchase.Records.Routes.Requests

abbrev approved : PurchaseRequest
approved = record {
  id = "r1";
  request_no = "PR-1";
  requester_name = "Wang";
  requester_employee_id = none;
  department_name = "Kitchen";
  department_id = none;
  project_site_id = none;
  expected_arrival_date = none;
  purpose = none;
  status = RequestStatus.pending_purchase;
  submitted_at = some 1000;
  reviewed_at = some 2000;
  reviewed_by_employee_id = none;
  reviewed_by_name = none;
  review_remark = none;
  remark = none;
  lines = [];
}

abbrev records : Table PurchaseRecord
records = memory

abbrev requests : Table PurchaseRequest
requests = memory

abbrev nobody : Option String
nobody = none

abbrev request_rows : Rows PurchaseRequest
request_rows = put (λ j. none) "r1" approved

abbrev no_rows : Rows PurchaseRecord
no_rows j = none

abbrev world : World records requests trail true nobody
world = (no_rows, request_rows, [])

abbrev one_line : Json
one_line = obj (
    property "materialName" (str "Rice")
      (property "purchaseQuantity" (num (pos 50000)) (property "unit" (str "kg") end)))

abbrev sourced_by : Properties → Properties
sourced_by ps = property "sourceType" (str "platform") (property "purchasePlatform" (str "1688") ps)

abbrev body : Json
body = obj (
    property "purchaseNo" (str "PO-1") (
      property "purchaserName" (str "Li") (
        property "purchaseDate" (str "2026-05-11") (
          property "purchaseRequestId" (str "r1")
            (sourced_by (property "lines" (arr (cons one_line nil)) end))))))

abbrev patch_body : Json
patch_body = obj (sourced_by end)

-- A record that is there.
abbrev bought_before : PurchaseRecord
bought_before = record {
  id = "p1";
  purchase_no = "PO-1";
  purchase_request_id = some "r1";
  purchase_request_no = some "PR-1";
  purchaser_name = "Li";
  purchaser_employee_id = none;
  source_type = SourceType.offline;
  purchase_platform = none;
  platform_order_no = none;
  shop_name = none;
  supplier_party_id = none;
  contract_id = none;
  supplier_name_text = some "Market";
  purchase_description = none;
  purchase_date = "2026-05-11";
  expected_arrival_date = none;
  status = RecordStatus.ordered;
  remark = some "urgent";
  lines = [];
}

abbrev bought_world : World records requests trail true nobody
bought_world = (put no_rows "p1" bought_before, request_rows, [])

-- The patch sets the source and the platform, and keeps the rest.
patch_runs :
    (patch_record records requests trail true nobody true "p1" patch_body bought_world).0
    ≡ success (record bought_before { source_type = platform; purchase_platform = some "1688" })
unfolding patch_record normalize_record_input record_update_data update_record get trim
    nullable_string source_type_of String-discrete trimmed_text required_string run_in_transaction
    write_audit_log update_reply
patch_runs = refl

request_rows-AllReviewed : AllReviewed requests request_rows
request_rows-AllReviewed j q found = elim (String-discrete j "r1") [
  | yes e ↦
      let same : approved ≡ q =
        some_inj approved q (sym (if_pos (String-discrete j "r1") e _ _) ∙ found) in
      subst IsReviewed same (2000, refl)
  | no ne ↦
      absurd (some_not_none q (sym found ∙ if_neg (String-discrete j "r1") ne (some approved) none))
]

post_record-AllReviewed_example :
    AllReviewed requests
      (post_record records requests trail true nobody true true body request_rows world).1.1
post_record-AllReviewed_example =
    Requests.post_record-AllReviewed records requests trail true nobody true true body request_rows
      world request_rows-AllReviewed

abbrev patch : RecordInput
patch = record {
  purchase_no = none;
  purchase_request_no = none;
  purchaser_name = none;
  purchase_date = none;
  purchase_request_id = absent;
  purchaser_employee_id = absent;
  contract_id = absent;
  purchase_platform = given "1688";
  platform_order_no = absent;
  shop_name = absent;
  supplier_party_id = absent;
  supplier_name_text = absent;
  purchase_description = absent;
  expected_arrival_date = absent;
  remark = absent;
  source_type = some platform;
  status = none;
  lines = none;
}

normalize_record_input-update_example : Sourced (some platform) patch
unfolding normalize_record_input get trim trimmed_text nullable_string source_type_of
normalize_record_input-update_example =
    Laws.normalize_record_input-update patch_body {r = patch} refl

abbrev rice : RecordLine
rice = record {
  purchase_request_line_id = absent;
  material_id = absent;
  material_code = absent;
  material_name = "Rice";
  specification = absent;
  purchase_quantity = pos 50000;
  unit = "kg";
  purchase_price = absent;
  remark = absent;
}

abbrev bought : RecordInput
bought = record patch {
  purchase_no = some "PO-1";
  purchaser_name = some "Li";
  purchase_date = some "2026-05-11";
  purchase_request_id = given "r1";
  status = some RecordStatus.pending_purchase;
  lines = some (rice ∷ []);
}

normalize_record_input-create_example : IsNewRecord bought
unfolding normalize_record_input record_lines get trim trimmed_text nullable_string required_string
    positive_number nonnegative_number decimal source_type_of
normalize_record_input-create_example = Laws.normalize_record_input-create body {r = bought} refl
