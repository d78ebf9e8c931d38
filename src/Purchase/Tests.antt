-- ===== src/Purchase/Tests.antt =====
-- The purchase theorems at concrete requests.
mod Progress
use company_erp.Base.{
  ◌≡◌, ◌≢◌, refl, String, true, false, Option, none, some, [], ◌∷◌, absent, String-discrete,
  some_inj, some_not_none, subst, sym, ◌∙◌, if_pos, if_neg,
}
use company_erp.Base.Int.{pos}
use company_erp.Base.Json.{Json, obj, str, num, arr, undefined, end, property, nil, cons}
use company_erp.Database.{Table}
use company_erp.Database.Model.{Rows, put, memory}
use company_erp.Audit.Model.{trail}
use company_erp.Purchase.Status.{
  RequestStatus, RequestStatus-discrete, next_status, pending_approval, submit, approve, reject,
  rejected,
}
use company_erp.Purchase.Data.{PurchaseRequest, RequestLine}
use company_erp.Purchase.Input.{Review, normalize_review_input}
use company_erp.Purchase.Repository.{transition, review_data, submit_data}
use company_erp.Purchase.Handlers.{World, success, approve_request, reject_request, submit_request}
use company_erp.Purchase.Handlers.Effects
use company_erp.Purchase.Handlers.Effects.{Effect, SubmitChange, ReviewChange}
use company_erp.Purchase.Handlers.Edits
use company_erp.Purchase.Handlers.Invariant
use company_erp.Purchase.Handlers.Invariant.{AllReviewed, IsReviewed, Reach}
use company_erp.Purchase.Handlers.Races
use company_erp.Base.Json.{get}
use company_erp.Base.Text.{trim}
use company_erp.Base.{given, is_empty}
use company_erp.Base.Input.{trimmed_text, nullable_string, required_string, positive_number}
use company_erp.Base.Decimal.{decimal}
use company_erp.Purchase.Status.{request_status_of, cancelled, draft}
use company_erp.Purchase.Data.{RequestInput, ReviewInput}
use company_erp.Purchase.Input.{normalize_request_input}
use company_erp.Purchase.Input.RequestLines.{request_lines}
use company_erp.Purchase.Input.Laws
use company_erp.Purchase.Input.Laws.{IsNewRequest, IsPatchStatus}

abbrev pending : PurchaseRequest
pending = record {
  id = "r1";
  request_no = "PR-1";
  requester_name = "Wang";
  requester_employee_id = none;
  department_name = "Kitchen";
  department_id = none;
  project_site_id = none;
  expected_arrival_date = none;
  purpose = none;
  status = pending_approval;
  submitted_at = some 1000;
  reviewed_at = none;
  reviewed_by_employee_id = none;
  reviewed_by_name = none;
  review_remark = none;
  remark = none;
  lines = [];
}

abbrev table : Table PurchaseRequest
table = memory

abbrev nobody : Option String
nobody = none

abbrev rows : Rows PurchaseRequest
rows = put (λ j. none) "r1" pending

abbrev world : World table trail true nobody
world = (rows, [])

abbrev remark_body : Json
remark_body = obj (property "reviewRemark" (str " too late ") end)

-- Approving the pending request answers with it, and its row is then pending purchase.
approve_runs :
    (approve_request table trail true nobody true "r1" 2000 undefined rows world).1.0 "r1"
    ≡ some (record pending { status = RequestStatus.pending_purchase; reviewed_at = some 2000 })
unfolding approve_request next_status normalize_review_input transition review_data
    RequestStatus-discrete String-discrete
approve_runs = refl

-- A rejected request that was made a draft again is submitted, so that its row loses the review.
abbrev turned_down : PurchaseRequest
turned_down = record pending {
  status = draft;
  reviewed_at = some 1500;
  reviewed_by_name = some "Li";
  review_remark = some "too late";
}

abbrev turned_down_rows : Rows PurchaseRequest
turned_down_rows = put (λ j. none) "r1" turned_down

abbrev turned_down_world : World table trail true nobody
turned_down_world = (turned_down_rows, [])

submit_again_runs :
    (submit_request table trail true nobody true "r1" 2000 turned_down_rows turned_down_world).1.0
      "r1"
    ≡ some (record pending { submitted_at = some 2000 })
unfolding submit_request next_status transition submit_data RequestStatus-discrete String-discrete
submit_again_runs = refl

submit_request-Effect_example :
    Effect table trail true nobody "r1" submit "purchase_request.submit"
      (SubmitChange 2000)
      turned_down_world
      (submit_request table trail true nobody true "r1" 2000 turned_down_rows turned_down_world)
submit_request-Effect_example =
    Effects.submit_request-Effect table trail true nobody true "r1" 2000 turned_down_rows
      turned_down_world

approve_request-Effect_example :
    Effect table trail true nobody "r1" approve "purchase_request.approve"
      (ReviewChange undefined Review.approve RequestStatus.pending_purchase 2000)
      world
      (approve_request table trail true nobody true "r1" 2000 undefined rows world)
approve_request-Effect_example =
    Effects.approve_request-Effect table trail true nobody true "r1" 2000 undefined rows world

reject_request-Effect_example :
    Effect table trail true nobody "r1" reject "purchase_request.reject"
      (ReviewChange remark_body Review.reject rejected 2000)
      world
      (reject_request table trail true nobody true "r1" 2000 remark_body rows world)
reject_request-Effect_example =
    Effects.reject_request-Effect table trail true nobody true "r1" 2000 remark_body rows world

abbrev one_line : Json
one_line = obj (
    property "materialName" (str "Rice")
      (property "requestedQuantity" (num (pos 50000)) (property "unit" (str "kg") end)))

abbrev new_body : Json
new_body = obj (
    property "requestNo" (str "PR-2") (
      property "requesterName" (str "Li") (
        property "departmentName" (str "Office") (property "lines" (arr (cons one_line nil)) end))))

abbrev patch_body : Json
patch_body = obj (property "status" (str "cancelled") end)

-- The one row of the table has the columns that its status calls for.
rows-AllReviewed : AllReviewed table rows
rows-AllReviewed j q found = elim (String-discrete j "r1") [
  | yes e ↦
      let same : pending ≡ q =
        some_inj pending q (sym (if_pos (String-discrete j "r1") e _ _) ∙ found) in
      subst IsReviewed same ((1000, refl), refl, refl)
  | no ne ↦
      absurd (some_not_none q (sym found ∙ if_neg (String-discrete j "r1") ne (some pending) none))
]

Reach-AllReviewed_example :
    AllReviewed table
      (approve_request table trail true nobody true "r1" 2000 undefined rows world).1.0
Reach-AllReviewed_example =
    Invariant.Reach-AllReviewed table trail true nobody {w = world} rows-AllReviewed
      (Reach.next Reach.here (Invariant.Step.approving true "r1" 2000 undefined rows))

abbrev after : World table trail true nobody
after = (approve_request table trail true nobody true "r1" 2000 undefined rows world).1

-- A second handler that had read the request while it was pending cannot decide it again.
approve_request-once_example :
    ((submit_request table trail true nobody true "r1" 3000 rows after).0 ≢ success pending)
    × ((approve_request table trail true nobody true "r1" 3000 undefined rows after).0
        ≢ success pending)
    × ((reject_request table trail true nobody true "r1" 3000 remark_body rows after).0
        ≢ success pending)
unfolding approve_request next_status normalize_review_input transition review_data
    RequestStatus-discrete String-discrete
approve_request-once_example =
    Races.approve_request-once table trail true nobody true "r1" 2000 undefined rows world after
      (record pending { status = RequestStatus.pending_purchase; reviewed_at = some 2000 }) pending
      true 3000 remark_body rows refl refl

abbrev rice_line : RequestLine
rice_line = record {
  material_id = absent;
  material_code = absent;
  material_name = "Rice";
  specification = absent;
  requested_quantity = pos 50000;
  unit = "kg";
  remark = absent;
}

abbrev new_request : RequestInput
new_request = record {
  request_no = some "PR-2";
  requester_name = some "Li";
  department_name = some "Office";
  requester_employee_id = absent;
  department_id = absent;
  project_site_id = absent;
  expected_arrival_date = absent;
  purpose = absent;
  remark = absent;
  status = some draft;
  lines = some (rice_line ∷ []);
}

normalize_request_input-create_example : IsNewRequest new_request
unfolding normalize_request_input get trim trimmed_text nullable_string required_string
    positive_number request_lines decimal
normalize_request_input-create_example =
    Laws.normalize_request_input-create new_body {r = new_request} refl

abbrev cancel_request : RequestInput
cancel_request = record {
  request_no = none;
  requester_name = none;
  department_name = none;
  requester_employee_id = absent;
  department_id = absent;
  project_site_id = absent;
  expected_arrival_date = absent;
  purpose = absent;
  remark = absent;
  status = some cancelled;
  lines = none;
}

normalize_request_input-update_example : IsPatchStatus (some cancelled)
unfolding normalize_request_input get trimmed_text nullable_string request_status_of
normalize_request_input-update_example =
    Laws.normalize_request_input-update patch_body {r = cancel_request} refl

abbrev late : ReviewInput
late = record {
  reviewed_by_employee_id = absent;
  reviewed_by_name = absent;
  review_remark = given "too late";
}

normalize_review_input-reject_example :
    (s : String) × (given "too late" ≡ given s) × (is_empty s ≡ false)
unfolding normalize_review_input get trim nullable_string
normalize_review_input-reject_example =
    Laws.normalize_review_input-reject remark_body {r = late} refl
