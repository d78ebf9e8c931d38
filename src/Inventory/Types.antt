-- ===== src/Inventory/Types.antt =====
-- Movements of stock: their types and sources (packages/shared/src/index.ts), the checked input of
-- apps/api/src/modules/inventory/inventory.ts, and the rows that
-- apps/api/src/infra/prisma/prismaInventoryRepository.ts writes.
use company_erp.Base.{String, Bool, true, Option, none, some, Field, str_eq, if◌then◌else◌}
use company_erp.Base.Int.{ℤ}
use company_erp.Purchase.Status.{RecordStatus}

pub data MovementType : Type 0 where
  opening inbound outbound adjustment_in adjustment_out : MovementType

pub data SourceType : Type 0 where
  purchase return_material inventory_gain opening project_usage other : SourceType

-- `movementTypes.has(code)`, with the type that the code stands for.
unfoldable pub movement_type_of : String → Option MovementType
movement_type_of s =
    if str_eq s "opening"
    then some MovementType.opening
    else if str_eq s "inbound"
    then some inbound
    else if str_eq s "outbound"
    then some outbound
    else if str_eq s "adjustment_in"
    then some adjustment_in
    else if str_eq s "adjustment_out"
    then some adjustment_out
    else none

-- `sourceTypes.has(code)`
unfoldable pub source_type_of : String → Option SourceType
source_type_of s =
    if str_eq s "purchase"
    then some purchase
    else if str_eq s "return_material"
    then some return_material
    else if str_eq s "inventory_gain"
    then some inventory_gain
    else if str_eq s "opening"
    then some SourceType.opening
    else if str_eq s "project_usage"
    then some project_usage
    else if str_eq s "other"
    then some other
    else none

-- `creatableMovementTypes`
unfoldable pub is_creatable : MovementType → Bool
is_creatable MovementType.opening = true
is_creatable inbound = true
is_creatable outbound = true
is_creatable adjustment_in = true
is_creatable adjustment_out = true

-- `CreateInventoryMovementInput`
pub record MovementInput : Type 0 where
  pub movement_no : Option String
  pub movement_date : String
  pub movement_type : MovementType
  pub source_type : Field SourceType
  pub warehouse_id : String
  pub material_id : String
  pub quantity : ℤ
  pub unit : String
  pub unit_price : Field ℤ
  pub purchase_record_no : Field String
  pub purchase_record_line_id : Field String
  pub handled_by : Field String
  pub purpose : Field String
  pub remark : Field String

-- A row of the movements, whose quantity is signed.
pub record Movement : Type 0 where
  pub id : String
  pub movement_no : String
  pub movement_date : String
  pub movement_type : MovementType
  pub source_type : Option SourceType
  pub warehouse_id : String
  pub material_id : String
  pub quantity : ℤ
  pub unit : String
  pub unit_price : Option ℤ
  pub purchase_record_no : Option String
  pub purchase_record_line_id : Option String
  pub handled_by : Option String
  pub purpose : Option String
  pub remark : Option String

-- The columns of a purchase record line that receiving reads and writes.
pub record PurchaseLine : Type 0 where
  pub purchase_record_id : String
  pub purchase_quantity : ℤ
  pub received_quantity : ℤ

-- The columns of a purchase record that receiving writes.
pub record Receipt : Type 0 where
  pub received_quantity : ℤ
  pub status : RecordStatus
