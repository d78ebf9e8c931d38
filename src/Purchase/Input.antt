-- ===== src/Purchase/Input.antt =====
-- `normalizePurchaseRequestInput` and `normalizePurchaseRequestReviewInput` of
-- apps/api/src/modules/purchases/purchases.ts.
pub mod RequestLines
pub mod Laws
use Prim.Native.String
use company_erp.Base.{
  ℕ, zero, suc, ◌+◌, String, Bool, true, false, not, ◌&&◌, Option, none, some, List, [], ◌∷◌, ◌++◌,
  str_eq, if◌then◌else◌, Field, absent, cleared, given, Result, ok, err, finish, is_empty,
}
use company_erp.Base.Json.{
  Json, Properties, undefined, null, str, arr, obj, items, get, as_object, is_undefined,
}
use company_erp.Base.Input.{nullable_string, trimmed_text, is_missing, is_unset, issue_if}
use company_erp.Purchase.Status.{RequestStatus, draft, cancelled, request_status_of}
use company_erp.Purchase.Data.{RequestInput, RequestLine, ReviewInput}
use company_erp.Purchase.Input.RequestLines.{Mode, create, update, request_lines}
use company_erp.Base.{or_else}

-- Which statuses a body may set: a new request is a draft, and a patch only goes to draft or
-- cancelled.
patchable : Mode → RequestStatus → Option RequestStatus × List String
patchable create RequestStatus.draft = (some draft, [])
patchable create _ = (none, "status must be draft when creating purchase request" ∷ [])
patchable update RequestStatus.draft = (some draft, [])
patchable update RequestStatus.cancelled = (some cancelled, [])
patchable update _ =
    (none, "Use approval endpoints to change purchase request approval status" ∷ [])

status_field : Json → Mode → Option RequestStatus × List String
unfolding patchable
status_field undefined mode = (none, [])
status_field (str code) mode = elim (request_status_of code) [
  | none ↦ (none, "status is unsupported" ∷ [])
  | some status ↦ patchable mode status
]
status_field _ mode = (none, "status is unsupported" ∷ [])

-- Lines are normalised where they are given, and always when a request is created.
lines_field : Json → Mode → Option (List RequestLine) × List String
lines_field undefined update = (none, [])
lines_field lines mode = request_lines lines

-- The texts that a new request needs.
required_fields : Mode → RequestInput → List String
required_fields update r = []
required_fields create r =
    issue_if (is_missing r.request_no) "requestNo is required"
    ++ (issue_if (is_missing r.requester_name) "requesterName is required"
        ++ issue_if (is_missing r.department_name) "departmentName is required")

-- `status: normalized.status ?? "draft", lines: normalized.lines ?? []`
defaults : Mode → RequestInput → RequestInput
defaults update r = r
defaults create r = record r {
  status = some (or_else r.status draft);
  lines = some (or_else r.lines []);
}

request_fields : Properties → Mode → RequestInput
request_fields ps mode = record {
  request_no = trimmed_text (get "requestNo" ps);
  requester_name = trimmed_text (get "requesterName" ps);
  department_name = trimmed_text (get "departmentName" ps);
  requester_employee_id = nullable_string (get "requesterEmployeeId" ps);
  department_id = nullable_string (get "departmentId" ps);
  project_site_id = nullable_string (get "projectSiteId" ps);
  expected_arrival_date = nullable_string (get "expectedArrivalDate" ps);
  purpose = nullable_string (get "purpose" ps);
  remark = nullable_string (get "remark" ps);
  status = (status_field (get "status" ps) mode).0;
  lines = (lines_field (get "lines" ps) mode).0;
}

request_issues : Properties → Mode → List String
request_issues ps mode =
    (status_field (get "status" ps) mode).1
    ++ ((lines_field (get "lines" ps) mode).1 ++ required_fields mode (request_fields ps mode))

-- The error is the list of issues of a `PurchaseRequestValidationError`.
unfoldable pub normalize_request_input : Json → Mode → Result (List String) RequestInput
unfolding request_fields request_issues defaults required_fields status_field lines_field
normalize_request_input (obj ps) mode =
    finish (λ is. is) (request_issues ps mode) (defaults mode (request_fields ps mode))
normalize_request_input _ mode = err ("Payload must be an object" ∷ [])

pub data Review : Type 0 where
  approve reject : Review

-- `mode === "reject" && !normalized.reviewRemark`
needs_remark : Review → Field String → Bool
needs_remark approve remark = false
needs_remark reject remark = is_unset remark

review_fields : Properties → ReviewInput
review_fields ps = record {
  reviewed_by_employee_id = nullable_string (get "reviewedByEmployeeId" ps);
  reviewed_by_name = nullable_string (get "reviewedByName" ps);
  review_remark = nullable_string (get "reviewRemark" ps);
}

abbrev no_review : ReviewInput
no_review = record {
  reviewed_by_employee_id = absent;
  reviewed_by_name = absent;
  review_remark = absent;
}

empty_review : Review → Result (List String) ReviewInput
empty_review approve = ok no_review
empty_review reject = err ("reviewRemark is required" ∷ [])

unfoldable pub normalize_review_input : Json → Review → Result (List String) ReviewInput
unfolding review_fields empty_review needs_remark
normalize_review_input undefined mode = empty_review mode
normalize_review_input null mode = empty_review mode
normalize_review_input (obj ps) mode =
    if needs_remark mode (review_fields ps).review_remark
    then err ("reviewRemark is required" ∷ [])
    else ok (review_fields ps)
normalize_review_input _ mode = err ("Payload must be an object" ∷ [])
