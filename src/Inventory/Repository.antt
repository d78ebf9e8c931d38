-- ===== src/Inventory/Repository.antt =====
-- What `createPrismaInventoryRepository` of apps/api/src/infra/prisma/prismaInventoryRepository.ts
-- does to create a movement.
pub mod Receiving
use Prim.Native.String
use company_erp.Base.{
  zero, suc, String, Bool, true, false, ◌&&◌, or_else, Option, none, some, List, [], ◌∷◌, Result,
  ok, err, is_empty, any, str_eq, Field, absent, cleared, given, if◌then◌else◌,
}
use company_erp.Base.Int.{ℤ, pos, negsuc, ◌+ℤ◌}
use company_erp.Base.Double.{Double, nought, double, add, less, at_most, stored}
use company_erp.Base.Day.{is_day, day_of}
use company_erp.Database.{
  Table, DbError, unique_violation, foreign_key_violation, record_not_found, failure,
}
use company_erp.Purchase.Status.{RecordStatus, received, partially_received}
use company_erp.Inventory.Types.{
  MovementType, opening, inbound, outbound, adjustment_in, adjustment_out, SourceType,
  MovementInput, Movement, PurchaseLine, Receipt,
}
use company_erp.Inventory.Input.{truthy}
use company_erp.Inventory.Store.{MovementTable, Lines, lines_of}

-- `-Math.abs(quantity)`
abbrev minus_abs : ℤ → ℤ
minus_abs (pos zero) = pos 0
minus_abs (pos (suc n)) = negsuc n
minus_abs (negsuc n) = negsuc n

-- The sign of a movement's quantity in `createMovementData`.
unfoldable pub signed_quantity : MovementType → ℤ → ℤ
signed_quantity outbound quantity = minus_abs quantity
signed_quantity adjustment_out quantity = minus_abs quantity
signed_quantity _ quantity = quantity

-- `generatedMovementNo`, from the digits of the time and a random suffix.
unfoldable pub generated_movement_no : MovementType → String → String
generated_movement_no MovementType.opening stamp = String.◌++◌ "QC" stamp
generated_movement_no inbound stamp = String.◌++◌ "RK" stamp
generated_movement_no outbound stamp = String.◌++◌ "CK" stamp
generated_movement_no adjustment_in stamp = String.◌++◌ "PY" stamp
generated_movement_no adjustment_out stamp = String.◌++◌ "PK" stamp

-- A nullable column.
abbrev pub column {ℓ} : {A : Type ℓ} → Field A → Option A
column absent = none
column cleared = none
column (given a) = some a

-- `createMovementData`
unfoldable pub movement_data : MovementInput → String → String → Movement
unfolding signed_quantity generated_movement_no day_of
movement_data input stamp id = record {
  id = id;
  movement_no = or_else input.movement_no (generated_movement_no input.movement_type stamp);
  movement_date = day_of input.movement_date;
  movement_type = input.movement_type;
  source_type = column input.source_type;
  warehouse_id = input.warehouse_id;
  material_id = input.material_id;
  quantity = signed_quantity input.movement_type input.quantity;
  unit = input.unit;
  unit_price = column input.unit_price;
  purchase_record_no = column input.purchase_record_no;
  purchase_record_line_id = truthy input.purchase_record_line_id;
  handled_by = column input.handled_by;
  purpose = column input.purpose;
  remark = column input.remark;
}

-- What the repository throws.
pub data MovementError : Type 0 where
  number_conflict : MovementError
  missing_reference : MovementError
  database : DbError → MovementError

-- `mapInventoryError`
unfoldable pub map_inventory_error : DbError → MovementError
map_inventory_error (unique_violation targets) =
    if any (str_eq "movement_no") targets
    then number_conflict
    else database (unique_violation targets)
map_inventory_error foreign_key_violation = missing_reference
map_inventory_error record_not_found = missing_reference
map_inventory_error e = database e

-- `lines.reduce((sum, item) => sum + decimalToNumber(...), start)`
unfoldable pub total : (PurchaseLine → ℤ) → Double → List PurchaseLine → Double
unfolding add double
total column_of start [] = start
total column_of start (r ∷ rs) = total column_of (add start (double (column_of r))) rs

abbrev pub purchased_total : List PurchaseLine → Double
purchased_total = total (λ (r : PurchaseLine). r.purchase_quantity) nought

abbrev pub received_total : List PurchaseLine → Double
received_total = total (λ (r : PurchaseLine). r.received_quantity) nought

-- What the record of these lines is set to.
unfoldable pub rolled_up : List PurchaseLine → Receipt
unfolding total less at_most stored
rolled_up lines = record {
  received_quantity = stored (received_total lines);
  status =
      if less nought (purchased_total lines)
        && at_most (purchased_total lines) (received_total lines)
      then received
      else partially_received;
}

-- `receivedQuantity: { increment: quantity }`
unfoldable pub receive : ℤ → PurchaseLine → PurchaseLine
receive quantity r = record r { received_quantity = r.received_quantity +ℤ quantity }

module _ (M : MovementTable) {L : Table PurchaseLine} (N : Lines L) (R : Table Receipt) where
  -- Movements, lines and records.
  abbrev pub Stores : Type 0
  Stores = M.State × L.State × R.State

  -- `updatePurchaseReceivingRollup`
  unfoldable pub update_rollup : String → ℤ → L.State → R.State → Result DbError (L.State × R.State)
  unfolding receive rolled_up
  update_rollup id quantity l r = elim (L.update l id (receive quantity)) [
    | err e ↦ err e
    | ok (_, l') ↦ elim (L.find_unique l' id) [
      | none ↦ ok (l', r)
      | some line ↦
          let totals = rolled_up (lines_of N l' line.purchase_record_id) in
          elim (R.update r line.purchase_record_id (λ old. totals)) [
            | err e ↦ err e
            | ok (_, r') ↦ ok (l', r')
          ]
    ]
  ]

  -- The rollup, where the movement belongs to a line.
  unfoldable pub roll_up_line :
      Option String → ℤ → L.State → R.State → Result DbError (L.State × R.State)
  unfolding update_rollup
  roll_up_line none quantity l r = ok (l, r)
  roll_up_line (some id) quantity l r = update_rollup id quantity l r

  -- `createMovement`, inside the transaction of its caller. Prisma refuses a date that is none,
  -- with an error that is passed on.
  unfoldable pub create_movement :
      MovementInput → String → Stores → Result MovementError (Movement × Stores)
  unfolding movement_data roll_up_line is_day
  create_movement input stamp (m, l, r) = elim (is_day input.movement_date) [
    | false ↦ err (database failure)
    | true ↦ elim (M.create m (movement_data input stamp)) [
      | err e ↦ err (map_inventory_error e)
      | ok (id, m') ↦
          elim (roll_up_line (truthy input.purchase_record_line_id) input.quantity l r) [
            | err e ↦ err (map_inventory_error e)
            | ok (l', r') ↦ ok (movement_data input stamp id, (m', l', r'))
          ]
    ]
  ]
