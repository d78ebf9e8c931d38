-- ===== src/Inventory/Routes.antt =====
-- POST /api/inventory-movements of apps/api/src/modules/inventory/inventoryRoutes.ts.
pub mod Effects
pub mod Signs
use company_erp.Base.{
  ◌≡◌, String, Bool, true, false, ◌||◌, not, Option, none, some, List, [], ◌∷◌, ◌++◌, Result, ok,
  err, any, str_eq, Field, absent, cleared, given, if◌then◌else◌,
}
use company_erp.Base.Json.{Json}
use company_erp.Base.Input.{issue_if}
use company_erp.Database.{Table}
use company_erp.Audit.{AuditTable, AuditEntry, write_audit_log, run_in_transaction}
use company_erp.Inventory.Types.{MovementInput, Movement, PurchaseLine, Receipt}
use company_erp.Inventory.Input.{normalize_movement_input}
use company_erp.Inventory.Store.{MovementTable, Lines}
use company_erp.Inventory.Repository.{
  MovementError, number_conflict, missing_reference, database, create_movement, Stores,
}

-- What the checks read of the other parts: the base unit of a material and the active employees'
-- names and numbers, where those repositories are configured.
pub record Directory : Type 0 where
  pub base_unit : Option (String → Option String)
  pub employees : Option (List (String × String))

-- `employee.name === input.handledBy || employee.employeeNo === input.handledBy`
abbrev pub matches : Field String → String × String → Bool
matches (given h) (name, number) = str_eq name h || str_eq number h
matches _ _ = false

unit_issues : Directory → MovementInput → List String
unit_issues d input = elim d.base_unit [
  | none ↦ []
  | some unit_of ↦ elim (unit_of input.material_id) [
    | none ↦ []
    | some unit ↦ issue_if (not (str_eq input.unit unit)) "unit must match material baseUnit"
  ]
]

employee_issues : Directory → MovementInput → List String
employee_issues d input = elim d.employees [
  | none ↦ []
  | some es ↦
      issue_if (not (any (matches input.handled_by) es))
        "handledBy must reference an active headquarters employee"
]

-- `validateInventoryMovementBusinessRules`
unfoldable pub business_issues : Directory → MovementInput → List String
unfolding unit_issues employee_issues
business_issues d input = unit_issues d input ++ employee_issues d input

pub data Response : Type 0 where
  created : Movement → Response
  bad_request : List String → Response
  unavailable conflict server_error : Response

pub data Thrown : Type 0 where
  repository : MovementError → Thrown
  audit_write : Thrown

abbrev reference_issue : String
reference_issue = "Referenced warehouse, material, or purchase record line was not found"

-- The reply for what the transaction returned or threw.
unfoldable pub movement_reply : Result Thrown Movement → Response
movement_reply (ok m) = created m
movement_reply (err (repository number_conflict)) = conflict
movement_reply (err (repository missing_reference)) = bad_request (reference_issue ∷ [])
movement_reply (err (repository (database e))) = server_error
movement_reply (err audit_write) = server_error

module _ (M : MovementTable) {L : Table PurchaseLine} (N : Lines L) (R : Table Receipt)
    (A : AuditTable) (audited : Bool) (actor : Option String) where
  abbrev pub World : Type 0
  World = Stores M N R × A.State

  abbrev pub entry : String → AuditEntry
  entry id = record {
    actor_user_id = actor;
    action = "inventory_movement.create";
    entity_type = "inventory_movement";
    entity_id = some id;
  }

  -- The callback: the movement, and its entry.
  unfoldable pub logged_movement : MovementInput → String → World → Result Thrown (Movement × World)
  logged_movement input stamp (stores, audit) = elim (create_movement M N R input stamp stores) [
    | err e ↦ err (repository e)
    | ok (m, stores') ↦ elim (write_audit_log A audited audit (entry m.id)) [
      | none ↦ err audit_write
      | some audit' ↦ ok (m, (stores', audit'))
    ]
  ]

  unfoldable pub record_movement : MovementInput → String → World → Response × World
  unfolding logged_movement
  record_movement input stamp w =
      let (r, w') = run_in_transaction (logged_movement input stamp) w in (movement_reply r, w')

  -- `stamp` is what the time and the random suffix contribute to a generated number.
  unfoldable pub post_movement : Bool → Directory → String → Json → World → Response × World
  unfolding record_movement
  post_movement false d stamp body w = (unavailable, w)
  post_movement true d stamp body w = elim (normalize_movement_input body) [
    | err issues ↦ (bad_request issues, w)
    | ok input ↦ elim (business_issues d input) [
      | [] ↦ record_movement input stamp w
      | i ∷ is ↦ (bad_request (i ∷ is), w)
    ]
  ]
