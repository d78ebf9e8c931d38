-- ===== src/Replenishment/Input.antt =====
-- The body checks of apps/api/src/modules/inventory/replenishment.ts.
use company_erp.Base.{
  ◌≡◌, String, false, Option, none, some, List, [], ◌∷◌, ◌++◌, or_else, str_eq, if◌then◌else◌,
  Result, ok, err, finish, finish-eq-ok, append-eq-nil, is_empty, subst,
}
use company_erp.Base.Json.{Json, Properties, obj, undefined, str, get}
use company_erp.Base.Input.{nullable_string, required_string, required_string_ok}
use company_erp.Replenishment.Suggestions.{
  SuggestionStatus, opened, dismissed, UpdateInput, ConvertInput,
}

patch_status : Json → Option SuggestionStatus × List String
patch_status undefined = (none, [])
patch_status (str s) =
    if str_eq s "open"
    then (some opened, [])
    else if str_eq s "dismissed"
    then (some dismissed, [])
    else (none, "status can only be open or dismissed through patch" ∷ [])
patch_status _ = (none, "status can only be open or dismissed through patch" ∷ [])

-- `normalizeUpdateReplenishmentSuggestionInput`
unfoldable pub normalize_update_input : Json → Result (List String) UpdateInput
unfolding patch_status
normalize_update_input (obj ps) =
    finish (λ is. is) (patch_status (get "status" ps)).1
      (record {
        status = (patch_status (get "status" ps)).0;
        remark = nullable_string (get "remark" ps);
      })
normalize_update_input _ = err ("Payload must be an object" ∷ [])

convert_fields : Properties → ConvertInput
convert_fields ps = record {
  request_no = or_else (required_string (get "requestNo" ps) "requestNo").0 "";
  requester_name = or_else (required_string (get "requesterName" ps) "requesterName").0 "";
  department_name = or_else (required_string (get "departmentName" ps) "departmentName").0 "";
  requester_employee_id = nullable_string (get "requesterEmployeeId" ps);
  department_id = nullable_string (get "departmentId" ps);
  expected_arrival_date = nullable_string (get "expectedArrivalDate" ps);
  purpose = nullable_string (get "purpose" ps);
  remark = nullable_string (get "remark" ps);
}

convert_issues : Properties → List String
convert_issues ps =
    (required_string (get "requestNo" ps) "requestNo").1
    ++ ((required_string (get "requesterName" ps) "requesterName").1
        ++ (required_string (get "departmentName" ps) "departmentName").1)

-- `normalizeConvertReplenishmentSuggestionInput`
unfoldable pub normalize_convert_input : Json → Result (List String) ConvertInput
unfolding convert_fields convert_issues
normalize_convert_input (obj ps) = finish (λ is. is) (convert_issues ps) (convert_fields ps)
normalize_convert_input _ = err ("Payload must be an object" ∷ [])

filled :
    (j : Json) (field : String)
    → (required_string j field).1 ≡ []
    → is_empty (or_else (required_string j field).0 "") ≡ false
filled j field h = let (s, e, full) = required_string_ok j field h in rw e full

-- The texts that a conversion needs are there.
abbrev pub IsFilled : ConvertInput → Type 0
IsFilled r =
    (is_empty r.request_no ≡ false)
    × (is_empty r.requester_name ≡ false)
    × (is_empty r.department_name ≡ false)

-- A body that is accepted for a conversion has a request number, a requester and a department.
pub normalize_convert_input-IsFilled :
    (body : Json) {r : ConvertInput} → normalize_convert_input body ≡ ok r → IsFilled r
unfolding normalize_convert_input
normalize_convert_input-IsFilled (obj ps) {r} h =
    let (clean, made) = finish-eq-ok (λ is. is) (convert_issues ps) (convert_fields ps) h in
    let (a, b) = append-eq-nil (required_string (get "requestNo" ps) "requestNo").1 _ clean in
    let (c, d) = append-eq-nil (required_string (get "requesterName" ps) "requesterName").1 _ b in
    subst IsFilled made (
      filled (get "requestNo" ps) "requestNo" a,
      filled (get "requesterName" ps) "requesterName" c,
      filled (get "departmentName" ps) "departmentName" d,
    )
normalize_convert_input-IsFilled _ h = cc
