-- ===== src/Usage/Input.antt =====
-- `normalizeProjectUsageRequestInput` and `normalizeIssueProjectUsageRequestInput` of
-- apps/api/src/modules/projectSites/projectSites.ts.
pub mod Laws
use company_erp.Base.{
  ℕ, suc, String, Bool, true, false, Option, none, some, or_else, List, [], ◌∷◌, ◌++◌, str_eq,
  Field, absent, cleared, given, Result, ok, err, finish, if◌then◌else◌,
}
use company_erp.Base.Int.{ℤ, pos, pos_part}
use company_erp.Base.Json.{Json, Properties, undefined, null, str, obj, get}
use company_erp.Base.Input.{
  nullable_string, required_string, positive_number, nullable_date, trimmed_text, is_missing,
  issue_if,
}
use company_erp.Purchase.Input.RequestLines.{Mode, create, update}
use company_erp.Replenishment.Open.{UsageStatus, pending, issued, partially_issued, rejected}
use company_erp.Usage.Types.{IssueInput, UsageInput}

-- `usageStatuses.has(code)`
unfoldable pub usage_status_of : String → Option UsageStatus
usage_status_of s =
    if str_eq s "pending"
    then some pending
    else if str_eq s "issued"
    then some issued
    else if str_eq s "partially_issued"
    then some partially_issued
    else if str_eq s "rejected"
    then some rejected
    else none

-- A number that was accepted is positive, so its magnitude is the number.
abbrev pub magnitude : Option ℤ → Option ℕ
magnitude none = none
magnitude (some n) = some (pos_part n)

abbrev pub given_or_absent : Option ℕ → Field ℕ
given_or_absent none = absent
given_or_absent (some n) = given n

-- `normalizeOptionalPositiveNumber`
unfoldable pub optional_positive : Json → String → Field ℕ × List String
optional_positive undefined field = (absent, [])
optional_positive null field = (cleared, [])
optional_positive v field =
    let n = positive_number v field in (given_or_absent (magnitude n.0), n.1)

-- The requested quantity, of which `null` counts as not given.
unfoldable pub requested_field : Json → Option ℕ × List String
requested_field undefined = (none, [])
requested_field null = (none, [])
requested_field v = let n = positive_number v "requestedQuantity" in (magnitude n.0, n.1)

unfoldable pub usage_status_field : Json → Option UsageStatus × List String
unfolding usage_status_of
usage_status_field undefined = (none, [])
usage_status_field (str code) = elim (usage_status_of code) [
  | none ↦ (none, "status is unsupported" ∷ [])
  | some s ↦ (some s, [])
]
usage_status_field _ = (none, "status is unsupported" ∷ [])

-- A date that is set only where it is a text.
abbrev pub text_of : Field String → Option String
text_of (given s) = some s
text_of _ = none

unfoldable pub usage_fields : Properties → UsageInput
unfolding optional_positive requested_field usage_status_field
usage_fields ps = record {
  request_no = trimmed_text (get "requestNo" ps);
  request_date = text_of (nullable_date (get "requestDate" ps) "requestDate").0;
  project_site_id = trimmed_text (get "projectSiteId" ps);
  warehouse_id = trimmed_text (get "warehouseId" ps);
  material_id = trimmed_text (get "materialId" ps);
  requested_quantity = (requested_field (get "requestedQuantity" ps)).0;
  approved_quantity = (optional_positive (get "approvedQuantity" ps) "approvedQuantity").0;
  unit = trimmed_text (get "unit" ps);
  purpose = nullable_string (get "purpose" ps);
  requested_by = nullable_string (get "requestedBy" ps);
  submitted_by_account_id = nullable_string (get "submittedByAccountId" ps);
  submitted_by_name_snapshot = nullable_string (get "submittedByNameSnapshot" ps);
  submitted_by_phone_snapshot = nullable_string (get "submittedByPhoneSnapshot" ps);
  expected_date = (nullable_date (get "expectedDate" ps) "expectedDate").0;
  status = (usage_status_field (get "status" ps)).0;
  remark = nullable_string (get "remark" ps);
}

abbrev pub no_quantity : Option ℕ → Bool
no_quantity none = true
no_quantity (some _) = false

-- What a new request needs.
unfoldable pub usage_required : Mode → UsageInput → List String
usage_required update r = []
usage_required create r =
    issue_if (is_missing r.request_no) "requestNo is required"
    ++ (issue_if (is_missing r.request_date) "requestDate is required"
        ++ (issue_if (is_missing r.project_site_id) "projectSiteId is required"
            ++ (issue_if (is_missing r.warehouse_id) "warehouseId is required"
                ++ (issue_if (is_missing r.material_id) "materialId is required"
                    ++ (issue_if (is_missing r.unit) "unit is required"
                        ++ issue_if (no_quantity r.requested_quantity)
                            "requestedQuantity must be a positive number")))))

unfoldable pub usage_issues : Properties → Mode → List String
unfolding usage_fields usage_required
usage_issues ps mode =
    (nullable_date (get "requestDate" ps) "requestDate").1
    ++ ((nullable_date (get "expectedDate" ps) "expectedDate").1
        ++ ((requested_field (get "requestedQuantity" ps)).1
            ++ ((optional_positive (get "approvedQuantity" ps) "approvedQuantity").1
                ++ ((usage_status_field (get "status" ps)).1
                    ++ usage_required mode (usage_fields ps)))))

-- `status: normalized.status ?? "pending"`
unfoldable pub usage_defaults : Mode → UsageInput → UsageInput
usage_defaults update r = r
usage_defaults create r = record r { status = some (or_else r.status pending) }

unfoldable pub normalize_usage_input : Json → Mode → Result (List String) UsageInput
unfolding usage_issues usage_defaults
normalize_usage_input (obj ps) mode =
    finish (λ is. is) (usage_issues ps mode) (usage_defaults mode (usage_fields ps))
normalize_usage_input _ mode = err ("Payload must be an object" ∷ [])

unfoldable pub issue_fields : Properties → IssueInput
issue_fields ps = record {
  outbound_no = or_else (required_string (get "outboundNo" ps) "outboundNo").0 "";
  movement_date = or_else (text_of (nullable_date (get "movementDate" ps) "movementDate").0) "";
  quantity = or_else (magnitude (positive_number (get "quantity" ps) "quantity").0) 0;
  handled_by = nullable_string (get "handledBy" ps);
  received_by_name = nullable_string (get "receivedByName" ps);
  remark = nullable_string (get "remark" ps);
}

unfoldable pub issue_input_issues : Properties → List String
issue_input_issues ps =
    (required_string (get "outboundNo" ps) "outboundNo").1
    ++ ((nullable_date (get "movementDate" ps) "movementDate").1
        ++ (positive_number (get "quantity" ps) "quantity").1)

unfoldable pub normalize_issue_input : Json → Result (List String) IssueInput
unfolding issue_input_issues issue_fields
normalize_issue_input (obj ps) = finish (λ is. is) (issue_input_issues ps) (issue_fields ps)
normalize_issue_input _ = err ("Payload must be an object" ∷ [])
