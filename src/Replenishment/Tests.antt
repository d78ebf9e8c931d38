-- ===== src/Replenishment/Tests.antt =====
-- The replenishment theorems at concrete rows.
use company_erp.Base.{◌≡◌, refl, none, some, List, [], ◌∷◌, keep, absent, ok, err, String-discrete}
use company_erp.Base.Int.{pos}
use company_erp.Base.Double.{nought, double}
use company_erp.Base.{Option, String, true}
use company_erp.Base.Json.{Json, obj, str, end, property}
use company_erp.Audit.Model.{trail}
use company_erp.Replenishment.Routes.{World, post_conversion}
use company_erp.Replenishment.Routes.Effects
use company_erp.Replenishment.Routes.Effects.{RouteEffect}
use company_erp.Database.{Table}
use company_erp.Database.Model.{Rows, memory, single}
use company_erp.Audit.{run_in_transaction}
use company_erp.Purchase.Status.{RecordStatus, draft}
use company_erp.Purchase.Data.{PurchaseRequest}
use company_erp.Replenishment.Totals.{total_of, sum_at}
use company_erp.Replenishment.Open
use company_erp.Replenishment.Open.{
  UsageRow, RequestedRow, BoughtRow, pending, stock_key, reserved_usage_by_key,
  open_purchase_by_material, usage_key, remaining_usage, is_reserving, requested_key, requested_of,
  is_open_request, bought_key, remaining_purchase, is_open_record,
}
use company_erp.Replenishment.Suggestions.{
  opened, Suggestion, ConvertInput, UpdateInput, already_converted, conversion_data, converted_data,
  convert_to_purchase_request, update_suggestion, suggestion_update_data,
}
use company_erp.Replenishment.Suggestions.Conversion
use company_erp.Replenishment.Suggestions.Conversion.{ConvertEffect}

abbrev usage : List UsageRow
usage =
    record {
      warehouse_id = "w1";
      material_id = "rice";
      status = pending;
      requested_quantity = pos 30;
      approved_quantity = some (pos 20);
      issued_quantity = pos 5;
    }
    ∷ []

reserved_usage_by_key-sum_at_example :
    total_of (stock_key "w1" "rice") (reserved_usage_by_key usage)
    ≡ sum_at usage_key remaining_usage (stock_key "w1" "rice") nought (keep is_reserving usage)
reserved_usage_by_key-sum_at_example = Open.reserved_usage_by_key-sum_at usage "w1" "rice"

-- What is reserved is the approved quantity less what was issued.
reserved_runs : total_of (stock_key "w1" "rice") (reserved_usage_by_key usage) ≡ double (pos 15)
unfolding total_of reserved_usage_by_key String-discrete double
reserved_runs = refl

abbrev wanted : List RequestedRow
wanted = record { material_id = some "rice"; status = draft; requested_quantity = pos 7 } ∷ []

abbrev coming : List BoughtRow
coming =
    record {
      material_id = some "rice";
      status = RecordStatus.ordered;
      purchase_quantity = pos 9;
      received_quantity = pos 4;
    }
    ∷ []

open_purchase_by_material-sum_at_example :
    total_of "rice" (open_purchase_by_material wanted coming)
    ≡ sum_at bought_key remaining_purchase "rice"
        (sum_at requested_key requested_of "rice" nought (keep is_open_request wanted))
        (keep is_open_record coming)
open_purchase_by_material-sum_at_example =
    Open.open_purchase_by_material-sum_at wanted coming "rice"

abbrev suggestion : Suggestion
suggestion = record {
  id = "s1";
  warehouse_id = "w1";
  material_id = "rice";
  material_code = "M1";
  material_name = "Rice";
  specification = absent;
  base_unit = "kg";
  safe_stock = pos 0;
  current_stock = pos 0;
  reserved_usage_qty = pos 0;
  open_purchase_qty = pos 0;
  suggested_quantity = pos 25;
  status = opened;
  converted_purchase_request_id = none;
  remark = none;
}

abbrev input : ConvertInput
input = record {
  request_no = "PR-9";
  requester_name = "Li";
  department_name = "Store";
  requester_employee_id = absent;
  department_id = absent;
  expected_arrival_date = absent;
  purpose = absent;
  remark = absent;
}

abbrev suggestions : Table Suggestion
suggestions = single "s1"

abbrev requests : Table PurchaseRequest
requests = memory

abbrev no_requests : Rows PurchaseRequest
no_requests j = none

abbrev world : Suggestion × Rows PurchaseRequest
world = (suggestion, no_requests)

convert_to_purchase_request-Effect_example :
    ConvertEffect suggestions requests "s1" input world
      (convert_to_purchase_request suggestions requests "s1" input world)
convert_to_purchase_request-Effect_example =
    Conversion.convert_to_purchase_request-Effect suggestions requests "s1" input world

abbrev after : Suggestion × Rows PurchaseRequest
after = (convert_to_purchase_request suggestions requests "s1" input world).1

convert_to_purchase_request-once_example :
    convert_to_purchase_request suggestions requests "s1" input after
    ≡ (err already_converted, after)
unfolding convert_to_purchase_request run_in_transaction String-discrete
convert_to_purchase_request-once_example =
    Conversion.convert_to_purchase_request-once suggestions requests "s1" input input world after
      (converted_data "new" suggestion) (conversion_data input suggestion "new") refl refl

abbrev reopen : UpdateInput
reopen = record { status = some opened; remark = absent }

-- A patch opens a converted suggestion again.
reopened :
    (update_suggestion suggestions "s1" reopen after.0)
    ≡ ok (
      some (record (converted_data "new" suggestion) { status = opened }),
      record (converted_data "new" suggestion) { status = opened },
    )
unfolding update_suggestion suggestion_update_data convert_to_purchase_request run_in_transaction
    String-discrete
reopened = refl

abbrev convert_body : Json
convert_body = obj (
    property "requestNo" (str "PR-9")
      (property "requesterName" (str "Li") (property "departmentName" (str "Store") end)))

abbrev nobody : Option String
nobody = none

abbrev route_world : World suggestions requests trail true nobody
route_world = (world, [])

post_conversion-Effect_example :
    RouteEffect suggestions requests trail true nobody "s1" convert_body route_world
      (post_conversion suggestions requests trail true nobody true "s1" convert_body route_world)
post_conversion-Effect_example =
    Effects.post_conversion-Effect suggestions requests trail true nobody true "s1" convert_body
      route_world
