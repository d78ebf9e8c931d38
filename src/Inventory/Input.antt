-- ===== src/Inventory/Input.antt =====
-- `normalizeInventoryMovementInput` of apps/api/src/modules/inventory/inventory.ts.
pub mod Laws
use Prim.Native.String
use company_erp.Base.{
  String, Bool, Option, none, some, List, [], ◌∷◌, ◌++◌, if◌then◌else◌, is_empty, Field, absent,
  cleared, given, Result, ok, err, finish,
}
use company_erp.Base.Int.{ℤ, pos}
use company_erp.Base.Json.{Json, Properties, undefined, null, str, obj, get}
use company_erp.Base.Input.{
  nullable_string, required_string, positive_integer, nonnegative_number, optional_date,
}
use company_erp.Inventory.Types.{
  MovementType, inbound, SourceType, movement_type_of, source_type_of, is_creatable, MovementInput,
}
use company_erp.Base.{or_else}

movement_type_field : Json → Option MovementType × List String
movement_type_field (str code) = elim (movement_type_of code) [
  | none ↦ (none, "movementType is unsupported" ∷ [])
  | some t ↦
      if is_creatable t
      then (some t, [])
      else (some t, "movementType is not open for creation in this phase" ∷ [])
]
movement_type_field _ = (none, "movementType is unsupported" ∷ [])

source_type_field : Json → Field SourceType × List String
source_type_field undefined = (absent, [])
source_type_field null = (cleared, [])
source_type_field (str code) = elim (source_type_of code) [
  | none ↦ (absent, "sourceType is unsupported" ∷ [])
  | some t ↦ (given t, [])
]
source_type_field _ = (absent, "sourceType is unsupported" ∷ [])

-- A text that is there and not empty: `...(value ? { field: value } : {})`.
abbrev pub truthy : Field String → Option String
truthy absent = none
truthy cleared = none
truthy (given s) = if is_empty s then none else some s

movement_fields : Properties → MovementInput
movement_fields ps = record {
  movement_no = truthy (nullable_string (get "movementNo" ps));
  movement_date = or_else (optional_date (get "movementDate" ps) "movementDate").0 "";
  movement_type = or_else (movement_type_field (get "movementType" ps)).0 inbound;
  source_type = (source_type_field (get "sourceType" ps)).0;
  warehouse_id = or_else (required_string (get "warehouseId" ps) "warehouseId").0 "";
  material_id = or_else (required_string (get "materialId" ps) "materialId").0 "";
  quantity = or_else (positive_integer (get "quantity" ps) "quantity").0 (pos 0);
  unit = or_else (required_string (get "unit" ps) "unit").0 "";
  unit_price = (nonnegative_number (get "unitPrice" ps) "unitPrice").0;
  purchase_record_no = nullable_string (get "purchaseRecordNo" ps);
  purchase_record_line_id = nullable_string (get "purchaseRecordLineId" ps);
  handled_by = nullable_string (get "handledBy" ps);
  purpose = nullable_string (get "purpose" ps);
  remark = nullable_string (get "remark" ps);
}

movement_issues : Properties → List String
movement_issues ps =
    (movement_type_field (get "movementType" ps)).1
    ++ ((source_type_field (get "sourceType" ps)).1
        ++ ((nonnegative_number (get "unitPrice" ps) "unitPrice").1
            ++ ((optional_date (get "movementDate" ps) "movementDate").1
                ++ ((required_string (get "warehouseId" ps) "warehouseId").1
                    ++ ((required_string (get "materialId" ps) "materialId").1
                        ++ ((positive_integer (get "quantity" ps) "quantity").1
                            ++ (required_string (get "unit" ps) "unit").1))))))

-- The error is the list of issues of an `InventoryMovementValidationError`.
unfoldable pub normalize_movement_input : Json → Result (List String) MovementInput
unfolding movement_fields movement_issues movement_type_field source_type_field
normalize_movement_input (obj ps) = finish (λ is. is) (movement_issues ps) (movement_fields ps)
normalize_movement_input _ = err ("Payload must be an object" ∷ [])
