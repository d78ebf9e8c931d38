-- ===== src/Inventory/Input/Laws.antt =====
-- What a body that passes `normalizeInventoryMovementInput` is known to hold.
use company_erp.Base.{
  ◌≡◌, refl, ◌⊎◌, inl, inr, ℕ, suc, ◌%◌, String, true, false, [], ok, finish-eq-ok, is_empty,
  is_date_text, trim, append-eq-nil, subst, Bool-cases,
}
use company_erp.Base.Int.{pos}
use company_erp.Base.Json.{Json, obj, undefined, str, get}
use company_erp.Base.Input.{
  required_string, positive_integer, nonnegative_number, optional_date, required_string_ok,
  positive_integer_ok, scale,
}
use company_erp.Inventory.Types.{MovementInput}
use company_erp.Inventory.Input.{
  normalize_movement_input, movement_fields, movement_issues, movement_type_field,
  source_type_field,
}
use company_erp.Base.{or_else}

-- A whole number of units that is positive, at a place and of a material that are named.
pub record IsMovement (r : MovementInput) : Type 0 where
  pub count : ℕ
  pub counted : r.quantity ≡ pos (suc count)
  pub whole : suc count % scale ≡ 0
  pub placed : is_empty r.warehouse_id ≡ false
  pub named : is_empty r.material_id ≡ false
  pub measured : is_empty r.unit ≡ false
  pub dated : (r.movement_date ≡ "") ⊎ (is_date_text r.movement_date ≡ true)

filled :
    (j : Json) (field : String)
    → (required_string j field).1 ≡ []
    → is_empty (or_else (required_string j field).0 "") ≡ false
filled j field h = let (s, e, full) = required_string_ok j field h in rw e full

date_filled :
    (j : Json) (field : String)
    → (optional_date j field).1 ≡ []
    → (or_else (optional_date j field).0 "" ≡ "")
      ⊎ (is_date_text (or_else (optional_date j field).0 "") ≡ true)
unfolding optional_date
date_filled undefined field h = inl refl
date_filled (str s) field h = elim (Bool-cases (is_date_text (trim s))) [
  | inl e ↦ inr (rw e e)
  | inr e ↦ inl (rw e refl)
]
date_filled _ field h = inl refl

-- Every body that is accepted describes a movement of a positive whole quantity, with a warehouse,
-- a material and a unit; its date is a date text, or empty where the body has none.
pub normalize_movement_input-IsMovement :
    (body : Json) {r : MovementInput} → normalize_movement_input body ≡ ok r → IsMovement r
unfolding normalize_movement_input
normalize_movement_input-IsMovement (obj ps) {r} h =
    let fields = movement_fields ps in
    let (clean, made) = finish-eq-ok (λ is. is) (movement_issues ps) fields h in
    let (_, a) = append-eq-nil (movement_type_field (get "movementType" ps)).1 _ clean in
    let (_, b) = append-eq-nil (source_type_field (get "sourceType" ps)).1 _ a in
    let (_, c) = append-eq-nil (nonnegative_number (get "unitPrice" ps) "unitPrice").1 _ b in
    let (date, d) = append-eq-nil (optional_date (get "movementDate" ps) "movementDate").1 _ c in
    let (place, e) = append-eq-nil (required_string (get "warehouseId" ps) "warehouseId").1 _ d in
    let (name, f) = append-eq-nil (required_string (get "materialId" ps) "materialId").1 _ e in
    let (amount, measure) = append-eq-nil (positive_integer (get "quantity" ps) "quantity").1 _ f in
    let (n, q, whole) = positive_integer_ok (get "quantity" ps) "quantity" amount in
    subst IsMovement made (record {
      count = n;
      counted = rw q refl;
      whole = whole;
      placed = filled (get "warehouseId" ps) "warehouseId" place;
      named = filled (get "materialId" ps) "materialId" name;
      measured = filled (get "unit" ps) "unit" measure;
      dated = date_filled (get "movementDate" ps) "movementDate" date;
    })
normalize_movement_input-IsMovement _ h = cc
