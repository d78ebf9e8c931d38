-- ===== src/Purchase/Records/Input.antt =====
-- `normalizeRecordLines` and `normalizePurchaseRecordInput` of
-- apps/api/src/modules/purchases/purchases.ts.
pub mod Laws
use company_erp.Base.{
  ℕ, suc, String, Bool, true, false, ◌&&◌, or_else, Option, none, some, List, [], ◌∷◌, ◌++◌, Field,
  absent, Result, ok, err, finish,
}
use company_erp.Base.Int.{pos}
use company_erp.Base.Json.{Json, Items, Properties, undefined, str, arr, obj, items, get}
use company_erp.Base.Input.{
  nullable_string, required_string, positive_number, nonnegative_number, trimmed_text, is_missing,
  is_unset, issue_if,
}
use company_erp.Purchase.Status.{
  RecordStatus, SourceType, platform, supplier, offline, record_status_of, source_type_of,
}
use company_erp.Purchase.Data.{RecordLine, RecordInput}
use company_erp.Purchase.Input.RequestLines.{Mode, create, update, line_label}

record_line : ℕ → Properties → RecordLine × List String
record_line index ps =
    let price = nonnegative_number (get "purchasePrice" ps) (line_label index ".purchasePrice") in
    let name = required_string (get "materialName" ps) (line_label index ".materialName") in
    let quantity =
      positive_number (get "purchaseQuantity" ps) (line_label index ".purchaseQuantity") in
    let unit_text = required_string (get "unit" ps) (line_label index ".unit") in
    (
      record {
        purchase_request_line_id = nullable_string (get "purchaseRequestLineId" ps);
        material_id = nullable_string (get "materialId" ps);
        material_code = nullable_string (get "materialCode" ps);
        material_name = or_else name.0 "";
        specification = nullable_string (get "specification" ps);
        purchase_quantity = or_else quantity.0 (pos 0);
        unit = or_else unit_text.0 "";
        purchase_price = price.0;
        remark = nullable_string (get "remark" ps);
      },
      price.1 ++ (name.1 ++ (quantity.1 ++ unit_text.1)),
    )

-- The line that stands for an item that is no object.
abbrev empty_line : RecordLine
empty_line = record {
  purchase_request_line_id = absent;
  material_id = absent;
  material_code = absent;
  material_name = "";
  specification = absent;
  purchase_quantity = pos 0;
  unit = "";
  purchase_price = absent;
  remark = absent;
}

line_of : ℕ → Json → RecordLine × List String
unfolding record_line
line_of index (obj ps) = record_line index ps
line_of index _ = (empty_line, line_label index " must be an object" ∷ [])

lines_from : ℕ → List Json → List RecordLine × List String
lines_from index [] = ([], [])
lines_from index (v ∷ vs) =
    let line = line_of index v in
    let rest = lines_from (suc index) vs in (line.0 ∷ rest.0, line.1 ++ rest.1)

unfoldable pub record_lines : Json → Option (List RecordLine) × List String
unfolding lines_from line_of
record_lines (arr (Items.cons v vs)) =
    let lines = lines_from 0 (v ∷ items vs) in (some lines.0, lines.1)
record_lines _ = (none, "lines must contain at least one item" ∷ [])

source_field : Json → Option SourceType × List String
source_field undefined = (none, [])
source_field (str code) = elim (source_type_of code) [
  | none ↦ (none, "sourceType is unsupported" ∷ [])
  | some t ↦ (some t, [])
]
source_field _ = (none, "sourceType is unsupported" ∷ [])

status_field : Json → Option RecordStatus × List String
status_field undefined = (none, [])
status_field (str code) = elim (record_status_of code) [
  | none ↦ (none, "status is unsupported" ∷ [])
  | some s ↦ (some s, [])
]
status_field _ = (none, "status is unsupported" ∷ [])

lines_field : Json → Mode → Option (List RecordLine) × List String
lines_field undefined update = (none, [])
lines_field lines mode = record_lines lines

record_fields : Properties → Mode → RecordInput
record_fields ps mode = record {
  purchase_no = trimmed_text (get "purchaseNo" ps);
  purchase_request_no = trimmed_text (get "purchaseRequestNo" ps);
  purchaser_name = trimmed_text (get "purchaserName" ps);
  purchase_date = trimmed_text (get "purchaseDate" ps);
  purchase_request_id = nullable_string (get "purchaseRequestId" ps);
  purchaser_employee_id = nullable_string (get "purchaserEmployeeId" ps);
  contract_id = nullable_string (get "contractId" ps);
  purchase_platform = nullable_string (get "purchasePlatform" ps);
  platform_order_no = nullable_string (get "platformOrderNo" ps);
  shop_name = nullable_string (get "shopName" ps);
  supplier_party_id = nullable_string (get "supplierPartyId" ps);
  supplier_name_text = nullable_string (get "supplierNameText" ps);
  purchase_description = nullable_string (get "purchaseDescription" ps);
  expected_arrival_date = nullable_string (get "expectedArrivalDate" ps);
  remark = nullable_string (get "remark" ps);
  source_type = (source_field (get "sourceType" ps)).0;
  status = (status_field (get "status" ps)).0;
  lines = (lines_field (get "lines" ps) mode).0;
}

-- `!normalized.sourceType`
abbrev no_source : Option SourceType → Bool
no_source none = true
no_source (some t) = false

-- What a new record needs.
required_fields : Mode → RecordInput → List String
required_fields update r = []
required_fields create r =
    issue_if (is_missing r.purchase_no) "purchaseNo is required"
    ++ (issue_if (is_missing r.purchaser_name) "purchaserName is required"
        ++ (issue_if (no_source r.source_type) "sourceType is required"
            ++ issue_if (is_missing r.purchase_date) "purchaseDate is required"))

-- What the source of a purchase needs.
source_issues : Option SourceType → RecordInput → List String
source_issues none r = []
source_issues (some platform) r =
    issue_if (is_unset r.purchase_platform) "purchasePlatform is required for platform purchase"
source_issues (some supplier) r =
    issue_if (is_unset r.supplier_party_id && is_unset r.supplier_name_text)
      "supplierPartyId or supplierNameText is required for supplier purchase"
source_issues (some offline) r =
    issue_if (is_unset r.purchase_description)
      "purchaseDescription is required for offline purchase"

record_issues : Properties → Mode → List String
record_issues ps mode =
    (source_field (get "sourceType" ps)).1
    ++ ((status_field (get "status" ps)).1
        ++ ((lines_field (get "lines" ps) mode).1
            ++ (required_fields mode (record_fields ps mode)
                ++ source_issues (record_fields ps mode).source_type (record_fields ps mode))))

-- `status: normalized.status ?? "pending_purchase", lines: normalized.lines ?? []`
defaults : Mode → RecordInput → RecordInput
defaults update r = r
defaults create r = record r {
  status = some (or_else r.status RecordStatus.pending_purchase);
  lines = some (or_else r.lines []);
}

-- The error is the list of issues of a `PurchaseRecordValidationError`.
unfoldable pub normalize_record_input : Json → Mode → Result (List String) RecordInput
unfolding record_fields record_issues defaults required_fields source_issues status_field
    source_field lines_field
normalize_record_input (obj ps) mode =
    finish (λ is. is) (record_issues ps mode) (defaults mode (record_fields ps mode))
normalize_record_input _ mode = err ("Payload must be an object" ∷ [])
