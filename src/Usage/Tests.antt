-- ===== src/Usage/Tests.antt =====
-- Runs of the routes of project usage.
use company_erp.Base.{
  ◌≡◌, refl, ◌≤◌, String, true, false, Option, none, some, List, [], ◌∷◌, ok, absent, is_empty,
  arith, trim, is_date_text,
}
use company_erp.Base.Int.{pos, negsuc}
use company_erp.Base.Json.{Json, num, str, obj, property, end, get}
use company_erp.Base.Input.{required_string, nullable_string, positive_number, nullable_date}
use company_erp.Database.{Table, Ledger}
use company_erp.Database.Model.{single, memory}
use company_erp.Audit.Model.{trail}
use company_erp.Access.Roles.{external_project_site}
use company_erp.Inventory.Types.{opening}
use company_erp.Replenishment.Open.{pending, partially_issued}
use company_erp.Usage.Types.{Site, direct, Material, UsageRequest, StockMovement, IssueInput}
use company_erp.Usage.Scope.{Caller}
use company_erp.Usage.Input.{normalize_issue_input, issue_input_issues, issue_fields}
use company_erp.Usage.Input.Laws.{normalize_issue_input-IsIssue}
use company_erp.Usage.Issue.{charge_snapshot, issue_movement, issued_data}
use company_erp.Usage.Routes.{World, post_issue}
use company_erp.Usage.Routes.Effects.{RouteEffect, post_issue-Effect}
use company_erp.Usage.Edits.{Desk, post_usage, patch_usage}
use company_erp.Usage.Edits.Effects.{PostEffect, post_usage-Effect}
use company_erp.Usage.Edits.Changes.{PatchEffect, patch_usage-Effect}

abbrev asked : UsageRequest
asked = record {
  id = "u1";
  request_no = "U-1";
  request_date = "2026-05-11";
  project_site_id = "p1";
  warehouse_id = "w1";
  material_id = "m1";
  requested_quantity = 10000;
  approved_quantity = none;
  issued_quantity = 0;
  unit = "kg";
  purpose = none;
  requested_by = none;
  submitted_by_account_id = none;
  submitted_by_name_snapshot = none;
  submitted_by_phone_snapshot = none;
  expected_date = none;
  status = pending;
  outbound_no = none;
  unit_charge_price = none;
  charge_amount = pos 0;
  charge_price_source = none;
  charge_remark = none;
  last_issued_at = none;
  last_received_by_name = none;
  remark = none;
}

-- Twenty kilograms in stock.
abbrev stocked : StockMovement
stocked = record {
  id = "m0";
  movement_no = "QC1";
  movement_date = "2026-05-01";
  movement_type = opening;
  source_type = none;
  issue_target_type = none;
  warehouse_id = "w1";
  material_id = "m1";
  quantity = pos 20000;
  unit = "kg";
  unit_charge_price = none;
  charge_amount = none;
  charge_price_source = none;
  charge_remark = none;
  project_site_id = none;
  subcontractor_name = none;
  requested_by = none;
  handled_by = none;
  received_by_name = none;
  purpose = none;
  remark = none;
  usage_request_id = none;
}

abbrev requests : Table UsageRequest
requests = single "u1"

abbrev movements : Ledger StockMovement
movements = record {
  State = List StockMovement;
  rows = λ s. s;
  create = λ s new. ok ("m1", new "m1" ∷ s);
  rows-create = λ s new id s' h. ground arith;
}

abbrev site_of : String → Site
site_of id = record { service_mode = direct; subcontractor_name = none }

-- Sold to project sites at 2.5.
abbrev material_of : String → Option Material
material_of id = some (record {
  is_project_site_sale_enabled = true;
  project_site_sale_price = some (pos 25000);
  project_site_sale_remark = none;
})

abbrev start : World requests movements site_of material_of trail true none
start = ((asked, stocked ∷ []), [])

-- Three kilograms.
abbrev issue_body : Json
issue_body = obj (
    property "outboundNo" (str "CK1")
      (property "movementDate" (str "2026-05-12") (property "quantity" (num (pos 30000)) end)))

normalize_issue_input-IsIssue_example : (is_empty "CK1" ≡ false) × (1 ≤ 30000)
unfolding normalize_issue_input issue_input_issues issue_fields required_string nullable_date
    positive_number nullable_string get trim is_date_text
normalize_issue_input-IsIssue_example =
    normalize_issue_input-IsIssue issue_body
      (record {
        outbound_no = "CK1";
        movement_date = "2026-05-12";
        quantity = 30000;
        handled_by = absent;
        received_by_name = absent;
        remark = absent;
      })
      refl

post_issue-Effect_example :
    RouteEffect requests movements site_of material_of trail true none "u1" issue_body start
      (post_issue requests movements site_of material_of trail true none true "u1" issue_body start)
post_issue-Effect_example =
    post_issue-Effect requests movements site_of material_of trail true none true "u1" issue_body
      start

-- 3.863 kilograms are issued of ten.
abbrev begun : UsageRequest
begun = record asked { issued_quantity = 3863; status = partially_issued }

abbrev part : IssueInput
part = record {
  outbound_no = "CK2";
  movement_date = "2026-05-13";
  quantity = 16235;
  handled_by = absent;
  received_by_name = absent;
  remark = absent;
}

-- Of 1.6235 more, the movement takes 1.624, and the request counts 1.623.
movement_takes :
    (issue_movement begun (site_of "p1") (charge_snapshot none 16235) part "m2").quantity
    ≡ negsuc 1623
unfolding issue_movement
movement_takes = refl

request_counts : (issued_data begun (charge_snapshot none 16235) part begun).issued_quantity ≡ 5486
unfolding issued_data
request_counts = refl

abbrev cook : Caller
cook = record {
  id = "a9";
  roles = external_project_site ∷ [];
  assigned_project_site_ids = "p1" ∷ [];
  employee_name = none;
  contact_name = some "Wang";
  contact_phone = none;
}

abbrev usage_body : Json
usage_body = obj (
    property "requestNo" (str "U-2") (
      property "requestDate" (str "2026-05-11") (
        property "warehouseId" (str "w1") (
          property "materialId" (str "m1")
            (property "unit" (str "kg") (property "requestedQuantity" (num (pos 50000)) end))))))

abbrev desk : Desk memory trail true (some cook)
desk = ((λ id. none), [])

post_usage-Effect_example :
    PostEffect memory trail true
      (some cook)
      usage_body
      desk
      (post_usage memory trail true (some cook) true usage_body desk)
post_usage-Effect_example = post_usage-Effect memory trail true (some cook) true usage_body desk

patch_usage-Effect_example :
    PatchEffect requests trail true none "u1"
      (obj (property "status" (str "rejected") end))
      asked
      (asked, [])
      (patch_usage requests trail true none true "u1"
        (obj (property "status" (str "rejected") end))
        asked
        (asked, []))
patch_usage-Effect_example =
    patch_usage-Effect requests trail true none true "u1"
      (obj (property "status" (str "rejected") end)) asked (asked, [])
