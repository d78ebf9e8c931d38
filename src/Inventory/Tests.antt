-- ===== src/Inventory/Tests.antt =====
-- The inventory theorems at concrete movements.
use company_erp.Base.{
  ◌≡◌, refl, String, true, Option, none, [], ◌∷◌, absent, given, String-discrete, trim,
}
use company_erp.Base.Int.{ℤ, pos, ◌+ℤ◌}
use company_erp.Base.Json.{Json, obj, str, num, end, property, get}
use company_erp.Base.Input.{
  nullable_string, required_string, positive_integer, nonnegative_number, optional_date,
}
use company_erp.Database.{Table}
use company_erp.Database.Model.{single}
use company_erp.Audit.{run_in_transaction, write_audit_log}
use company_erp.Audit.Model.{trail}
use company_erp.Purchase.Status.{ordered, received, partially_received}
use company_erp.Inventory.Types.{
  outbound, MovementInput, PurchaseLine, Receipt, movement_type_of, is_creatable,
}
use company_erp.Inventory.Input.{normalize_movement_input}
use company_erp.Inventory.Input.Laws
use company_erp.Inventory.Input.Laws.{IsMovement}
use company_erp.Inventory.Store.{lines_of}
use company_erp.Inventory.Store.Model.{movements, one_line}
use company_erp.Inventory.Repository.{update_rollup, create_movement, rolled_up}
use company_erp.Inventory.Repository.Receiving
use company_erp.Inventory.Repository.Receiving.{Received}
use company_erp.Inventory.Routes.{
  Directory, World, post_movement, business_issues, movement_reply, server_error,
}
use company_erp.Inventory.Routes.Effects
use company_erp.Inventory.Routes.Effects.{MovementEffect}
use company_erp.Inventory.Routes.Signs
use company_erp.Inventory.Routes.Signs.{Reach, Grown}

abbrev line : PurchaseLine
line = record {
  purchase_record_id = "p1";
  purchase_quantity = pos 50000;
  received_quantity = pos 20000;
}

abbrev receipt : Receipt
receipt = record { received_quantity = pos 20000; status = ordered }

abbrev records : Table Receipt
records = single "p1"

abbrev nobody : Option String
nobody = none

abbrev world : World movements one_line records trail true nobody
world = (([], line, receipt), [])

abbrev everyone : Directory
everyone = record { base_unit = none; employees = none }

abbrev placed : String → Json
placed type = obj (
    property "movementType" (str type) (
      property "warehouseId" (str "w1") (
        property "materialId" (str "rice") (
          property "quantity" (num (pos 30000))
            (property "unit" (str "kg") (property "purchaseRecordLineId" (str "l1") end))))))

-- The same on a day.
abbrev on_day : Json → Json
on_day (obj ps) = obj (property "movementDate" (str "2026-05-12") ps)
on_day j = j

abbrev dated : String → Json
dated type = on_day (placed type)

-- What is received on the one line of a record, so that the record is received.
update_rollup-Received_example :
    Received one_line movements records "l1"
      (pos 30000)
      line
      receipt
      (record line { received_quantity = pos 50000 })
      (record { received_quantity = pos 50000; status = received })
unfolding update_rollup lines_of String-discrete ◌+ℤ◌
update_rollup-Received_example =
    Receiving.update_rollup-Received one_line movements records "l1" (pos 30000) line
      (record line { received_quantity = pos 50000 }) receipt
      (record { received_quantity = pos 50000; status = received }) refl

post_movement-Effect_example :
    MovementEffect movements one_line records trail true nobody everyone "1"
      (dated "inbound")
      world
      (post_movement movements one_line records trail true nobody true everyone "1"
        (dated "inbound")
        world)
post_movement-Effect_example =
    Effects.post_movement-Effect movements one_line records trail true nobody true everyone "1"
      (dated "inbound") world

Reach-Grown_example :
    Grown movements one_line records trail true nobody world
      (post_movement movements one_line records trail true nobody true everyone "1"
        (dated "outbound")
        world).1
Reach-Grown_example =
    Signs.Reach-Grown movements one_line records trail true nobody {w = world}
      (Reach.next true everyone "1" (dated "outbound") Reach.here)

abbrev undated : MovementInput
undated = record {
  movement_no = none;
  movement_date = "";
  movement_type = outbound;
  source_type = absent;
  warehouse_id = "w1";
  material_id = "rice";
  quantity = pos 30000;
  unit = "kg";
  unit_price = absent;
  purchase_record_no = absent;
  purchase_record_line_id = given "l1";
  handled_by = absent;
  purpose = absent;
  remark = absent;
}

-- A body without a date is accepted, with an empty one.
normalize_movement_input-IsMovement_example : IsMovement undated
unfolding normalize_movement_input get trim nullable_string required_string positive_integer
    nonnegative_number optional_date movement_type_of is_creatable
normalize_movement_input-IsMovement_example =
    Laws.normalize_movement_input-IsMovement (placed "outbound") {r = undated} refl

-- Goods that leave the warehouse are received on the line that their movement names.
outbound_received :
    (post_movement movements one_line records trail true nobody true everyone "1"
      (dated "outbound")
      world).1.0.2
    ≡ record { received_quantity = pos 50000; status = received }
unfolding post_movement create_movement normalize_movement_input business_issues lines_of get trim
    nullable_string required_string positive_integer nonnegative_number optional_date
    movement_type_of is_creatable String-discrete ◌+ℤ◌ run_in_transaction write_audit_log
outbound_received = refl

-- A movement without a date passes the checks and then fails.
undated_fails :
    (post_movement movements one_line records trail true nobody true everyone "1"
      (placed "outbound")
      world).0
    ≡ server_error
unfolding post_movement create_movement normalize_movement_input business_issues get trim
    nullable_string required_string positive_integer nonnegative_number optional_date
    movement_type_of is_creatable run_in_transaction movement_reply
undated_fails = refl

-- 5.9 + 2.2 + 4.9 is more than the 13 that were received, as doubles.
abbrev bought_of : ℤ → ℤ → PurchaseLine
bought_of purchased received_quantity = record {
  purchase_record_id = "p1";
  purchase_quantity = purchased;
  received_quantity = received_quantity;
}

not_complete :
    rolled_up (
      bought_of (pos 59000) (pos 60000)
      ∷ bought_of (pos 22000) (pos 20000)
      ∷ bought_of (pos 49000) (pos 50000)
      ∷ [])
    ≡ record { received_quantity = pos 130000; status = partially_received }
unfolding rolled_up
not_complete = refl
