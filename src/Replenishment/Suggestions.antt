-- ===== src/Replenishment/Suggestions.antt =====
-- `update` and `convertToPurchaseRequest` of
-- apps/api/src/infra/prisma/prismaReplenishmentRepository.ts, over the tables of suggestions and of
-- purchase requests.
pub mod Conversion
use company_erp.Base.{
  String, Option, none, some, List, [], ◌∷◌, Field, absent, cleared, given, Result, ok, err, any,
  str_eq, if◌then◌else◌, or_else,
}
use company_erp.Base.Int.{ℤ}
use company_erp.Database.{Table, DbError, unique_violation, record_not_found}
use company_erp.Audit.{run_in_transaction}
use company_erp.Purchase.Status.{RequestStatus}
use company_erp.Purchase.Data.{PurchaseRequest, RequestLine}
use company_erp.Purchase.Repository.{assign_text, assign_relation}

-- `opened` is the code "open".
pub data SuggestionStatus : Type 0 where
  opened converted dismissed : SuggestionStatus

-- A suggestion, with what `include` fetches of its material.
pub record Suggestion : Type 0 where
  pub id : String
  pub warehouse_id : String
  pub material_id : String
  pub material_code : String
  pub material_name : String
  pub specification : Field String
  pub base_unit : String
  pub safe_stock : ℤ
  pub current_stock : ℤ
  pub reserved_usage_qty : ℤ
  pub open_purchase_qty : ℤ
  pub suggested_quantity : ℤ
  pub status : SuggestionStatus
  pub converted_purchase_request_id : Option String
  pub remark : Option String

-- `UpdateReplenishmentSuggestionInput`
pub record UpdateInput : Type 0 where
  pub status : Option SuggestionStatus
  pub remark : Field String

-- `ConvertReplenishmentSuggestionInput`
pub record ConvertInput : Type 0 where
  pub request_no : String
  pub requester_name : String
  pub department_name : String
  pub requester_employee_id : Field String
  pub department_id : Field String
  pub expected_arrival_date : Field String
  pub purpose : Field String
  pub remark : Field String

-- The reasons of a `ReplenishmentSuggestionConflictError`, and every other error.
pub data SuggestionError : Type 0 where
  already_converted open_duplicate request_no : SuggestionError
  database : DbError → SuggestionError

-- `mapConflict`
unfoldable pub map_conflict : DbError → SuggestionError
map_conflict (unique_violation targets) =
    if any (str_eq "request_no") targets then request_no else open_duplicate
map_conflict e = database e

-- The data of `update`.
unfoldable pub suggestion_update_data : UpdateInput → Suggestion → Suggestion
suggestion_update_data input s = record s {
  status = or_else input.status s.status;
  remark = assign_text input.remark s.remark;
}

-- `input.purpose ?? "..."`
abbrev purpose_text : Field String → String
purpose_text (given s) = s
purpose_text _ = "库存补货建议"

abbrev suggestion_line : Suggestion → RequestLine
suggestion_line s = record {
  material_id = given s.material_id;
  material_code = given s.material_code;
  material_name = s.material_name;
  specification = s.specification;
  requested_quantity = s.suggested_quantity;
  unit = s.base_unit;
  remark = given "来源：库存补货建议";
}

-- The data of the purchase request that a suggestion becomes.
unfoldable pub conversion_data : ConvertInput → Suggestion → String → PurchaseRequest
conversion_data input s id = record {
  id = id;
  request_no = input.request_no;
  requester_name = input.requester_name;
  requester_employee_id = assign_relation input.requester_employee_id none;
  department_name = input.department_name;
  department_id = assign_relation input.department_id none;
  project_site_id = none;
  expected_arrival_date = assign_text input.expected_arrival_date none;
  purpose = some (purpose_text input.purpose);
  status = RequestStatus.pending_purchase;
  submitted_at = none;
  reviewed_at = none;
  reviewed_by_employee_id = none;
  reviewed_by_name = none;
  review_remark = none;
  remark = assign_text input.remark none;
  lines = suggestion_line s ∷ [];
}

-- The data of the suggestion that became the request `request_id`.
unfoldable pub converted_data : String → Suggestion → Suggestion
converted_data request_id s = record s {
  status = converted;
  converted_purchase_request_id = some request_id;
}

module _ (S : Table Suggestion) where
  -- A missing suggestion is `null`.
  unfoldable pub update_suggestion :
      String → UpdateInput → S.State → Result SuggestionError (Option Suggestion × S.State)
  update_suggestion id input s = elim (S.update s id (suggestion_update_data input)) [
    | ok (r, s') ↦ ok (some r, s')
    | err record_not_found ↦ ok (none, s)
    | err e ↦ err (map_conflict e)
  ]

module _ (S : Table Suggestion) (T : Table PurchaseRequest) where
  abbrev pub Conversion : Type 0
  Conversion = Option (Suggestion × PurchaseRequest) × (S.State × T.State)

  -- The two writes of a conversion.
  unfoldable pub convert_open :
      String → ConvertInput → Suggestion → S.State × T.State → Result SuggestionError Conversion
  convert_open id input found (s, t) = elim (T.create t (conversion_data input found)) [
    | err e ↦ err (map_conflict e)
    | ok (request_id, t') ↦ elim (S.update s id (converted_data request_id)) [
      | err e ↦ err (map_conflict e)
      | ok (r, s') ↦ ok (some (r, conversion_data input found request_id), (s', t'))
    ]
  ]

  -- Only an open suggestion is converted.
  unfoldable pub convert_found :
      SuggestionStatus
      → String
      → ConvertInput
      → Suggestion
      → S.State × T.State
      → Result SuggestionError Conversion
  unfolding convert_open
  convert_found opened id input found w = convert_open id input found w
  convert_found _ id input found w = err already_converted

  unfoldable pub convert_callback :
      String → ConvertInput → S.State × T.State → Result SuggestionError Conversion
  unfolding convert_found
  convert_callback id input (s, t) = elim (S.find_unique s id) [
    | none ↦ ok (none, (s, t))
    | some found ↦ convert_found found.status id input found (s, t)
  ]

  -- The callback in its transaction.
  unfoldable pub convert_to_purchase_request :
      String
      → ConvertInput
      → S.State × T.State
      → Result SuggestionError (Option (Suggestion × PurchaseRequest)) × (S.State × T.State)
  unfolding convert_callback
  convert_to_purchase_request id input = run_in_transaction (convert_callback id input)
