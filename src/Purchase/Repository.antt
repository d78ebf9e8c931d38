-- ===== src/Purchase/Repository.antt =====
-- `createPrismaPurchaseRequestRepository` of
-- apps/api/src/infra/prisma/prismaPurchasesRepository.ts, over a table of requests.
pub mod Transition
use company_erp.Base.{
  ℕ, ◌==◌, String, Bool, true, false, Option, none, some, [], Result, ok, err, ite, if◌then◌else◌,
  is_empty, any, str_eq, Field, absent, cleared, given,
}
use company_erp.Database.{Table, DbError, unique_violation, record_not_found}
use company_erp.Purchase.Status.{
  RequestStatus, RequestStatus-discrete, draft, pending_approval, purchasing,
}
use company_erp.Purchase.Data.{PurchaseRequest, RequestInput, ReviewInput}
use company_erp.Base.{or_else}

-- What a call of the repository throws.
pub data RepositoryError : Type 0 where
  state_conflict : RepositoryError
  field_conflict : String → RepositoryError
  database : DbError → RepositoryError

-- `mapRequestConflict`
unfoldable pub map_request_conflict : DbError → RepositoryError
map_request_conflict (unique_violation targets) =
    if any (str_eq "request_no") targets
    then field_conflict "requestNo"
    else database (unique_violation targets)
map_request_conflict e = database e

abbrev pub has_status : RequestStatus → RequestStatus → Bool
has_status expected s = ite (RequestStatus-discrete s expected) true false

-- A text column takes NULL where the property is `null`.
abbrev pub assign_text : Field String → Option String → Option String
assign_text absent old = old
assign_text cleared old = none
assign_text (given s) old = some s

-- `relationUpdate`: an empty id disconnects too.
abbrev pub assign_relation : Field String → Option String → Option String
assign_relation absent old = old
assign_relation cleared old = none
assign_relation (given s) old = if is_empty s then none else some s

-- `requestCreateData`, with the columns' defaults where the input has no value.
unfoldable pub request_create_data : RequestInput → String → PurchaseRequest
request_create_data input id = record {
  id = id;
  request_no = or_else input.request_no "";
  requester_name = or_else input.requester_name "";
  requester_employee_id = assign_relation input.requester_employee_id none;
  department_name = or_else input.department_name "";
  department_id = assign_relation input.department_id none;
  project_site_id = assign_relation input.project_site_id none;
  expected_arrival_date = assign_text input.expected_arrival_date none;
  purpose = assign_text input.purpose none;
  status = or_else input.status draft;
  submitted_at = none;
  reviewed_at = none;
  reviewed_by_employee_id = none;
  reviewed_by_name = none;
  review_remark = none;
  remark = assign_text input.remark none;
  lines = or_else input.lines [];
}

-- `requestUpdateData`: lines that are given replace all lines.
unfoldable pub request_update_data : RequestInput → PurchaseRequest → PurchaseRequest
request_update_data input r = record r {
  request_no = or_else input.request_no r.request_no;
  requester_name = or_else input.requester_name r.requester_name;
  requester_employee_id = assign_relation input.requester_employee_id r.requester_employee_id;
  department_name = or_else input.department_name r.department_name;
  department_id = assign_relation input.department_id r.department_id;
  project_site_id = assign_relation input.project_site_id r.project_site_id;
  expected_arrival_date = assign_text input.expected_arrival_date r.expected_arrival_date;
  purpose = assign_text input.purpose r.purpose;
  status = or_else input.status r.status;
  remark = assign_text input.remark r.remark;
  lines = or_else input.lines r.lines;
}

-- The data of `submit`, at the time `now`.
unfoldable pub submit_data : ℕ → PurchaseRequest → PurchaseRequest
submit_data now r = record r {
  status = pending_approval;
  submitted_at = some now;
  reviewed_at = none;
  reviewed_by_employee_id = none;
  reviewed_by_name = none;
  review_remark = none;
}

-- `reviewData`
unfoldable pub review_data : RequestStatus → ℕ → ReviewInput → PurchaseRequest → PurchaseRequest
review_data status now input r = record r {
  status = status;
  reviewed_at = some now;
  reviewed_by_employee_id = assign_text input.reviewed_by_employee_id r.reviewed_by_employee_id;
  reviewed_by_name = assign_text input.reviewed_by_name r.reviewed_by_name;
  review_remark = assign_text input.review_remark r.review_remark;
}

abbrev pub is_purchasable : RequestStatus → Bool
is_purchasable RequestStatus.pending_purchase = true
is_purchasable RequestStatus.purchasing = true
is_purchasable _ = false

module _ (T : Table PurchaseRequest) where
  unfoldable pub create_request :
      RequestInput → T.State → Result RepositoryError (PurchaseRequest × T.State)
  create_request input s = elim (T.create s (request_create_data input)) [
    | ok (id, s') ↦ ok (request_create_data input id, s')
    | err e ↦ err (map_request_conflict e)
  ]

  -- A missing record is `null`.
  unfoldable pub update_request :
      String → RequestInput → T.State → Result RepositoryError (Option PurchaseRequest × T.State)
  update_request id input s = elim (T.update s id (request_update_data input)) [
    | ok (r, s') ↦ ok (some r, s')
    | err record_not_found ↦ ok (none, s)
    | err e ↦ err (map_request_conflict e)
  ]

  -- Compare and set: the row is changed only while it has the expected status.
  unfoldable pub transition :
      String
      → RequestStatus
      → (PurchaseRequest → PurchaseRequest)
      → T.State
      → Result RepositoryError (Option PurchaseRequest × T.State)
  transition id expected data_of s =
      elim (T.update_many s id (λ r. has_status expected r.status) data_of) [
        | err e ↦ err (database e)
        | ok (count, s') ↦
            if count == 1
            then ok (T.find_unique s' id, s')
            else elim (T.find_unique s' id) [ some r ↦ err state_conflict | none ↦ ok (none, s') ]
      ]

  unfoldable pub mark_purchasing : String → T.State → Result RepositoryError T.State
  mark_purchasing id s =
      elim (T.update_many s id (λ r. is_purchasable r.status)
        (λ r. record r { status = purchasing })) [ err e ↦ err (database e) | ok (_, s') ↦ ok s' ]
