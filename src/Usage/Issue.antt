-- ===== src/Usage/Issue.antt =====
-- `issue` of `createPrismaProjectUsageRequestRepository` in
-- apps/api/src/infra/prisma/prismaProjectSitesRepository.ts.
pub mod Effects
use company_erp.Base.{
  ℕ, suc, ◌+◌, ◌-◌, ◌*◌, ◌/◌, ltb, leb, String, Bool, true, false, ◌&&◌, Option, none, some,
  or_else, List, [], ◌∷◌, Result, ok, err, any, str_eq, if◌then◌else◌,
}
use company_erp.Base.Int.{ℤ, pos, negsuc, ◌+ℤ◌, neg, pos_part}
use company_erp.Base.Double.{
  Double, double, add, subtract, multiply, less, at_most, floor_zero, stored, to_fixed_4,
}
use company_erp.Base.Day.{is_day, day_of}
use company_erp.Database.{
  Table, Ledger, DbError, unique_violation, foreign_key_violation, record_not_found, failure,
}
use company_erp.Inventory.Types.{outbound, project_usage}
use company_erp.Inventory.Repository.{column}
use company_erp.Purchase.Repository.{assign_text}
use company_erp.Replenishment.Open.{UsageStatus, pending, issued, partially_issued, rejected}
use company_erp.Usage.Types.{
  ServiceMode, direct, subcontracted, IssueTarget, subcontractor, project_site, ChargePriceSource,
  project_site_price, Site, Material, UsageRequest, StockMovement, IssueInput,
}

-- What the repository throws.
pub data UsageError : Type 0 where
  validation : List String → UsageError
  conflict : String → UsageError
  database : DbError → UsageError

-- `mapUsageError`
unfoldable pub map_usage_error : DbError → UsageError
map_usage_error (unique_violation targets) =
    if any (str_eq "request_no") targets
    then conflict "requestNo"
    else if any (str_eq "movement_no") targets
    then conflict "outboundNo"
    else database (unique_violation targets)
map_usage_error foreign_key_violation =
    validation ("Referenced project site, warehouse, or material was not found" ∷ [])
map_usage_error record_not_found =
    validation ("Referenced project site, warehouse, or material was not found" ∷ [])
map_usage_error e = database e

-- A number in a quantity column: rounded to thousandths, half up.
unfoldable pub to_column : ℕ → ℕ
to_column quantity = (quantity + 5) / 10

-- `decimalToNumber` of a quantity column.
unfoldable pub to_number : ℕ → Double
unfolding double
to_number q = double (pos (10 * q))

-- A double of no sign in a quantity column.
unfoldable pub column_of : Double → ℕ
unfolding stored
column_of d = pos_part (stored d) / 10

-- The double of a number of the body.
unfoldable pub input_number : ℕ → Double
unfolding double
input_number quantity = double (pos quantity)

-- The same of a signed sum of the column.
unfoldable pub to_signed_number : ℤ → Double
unfolding double
to_signed_number (pos n) = double (pos (10 * n))
to_signed_number (negsuc n) = double (neg (pos (10 * suc n)))

-- `where: { warehouseId, materialId }`
abbrev pub is_stock_of : String → String → StockMovement → Bool
is_stock_of warehouse material m = str_eq m.warehouse_id warehouse && str_eq m.material_id material

-- `currentStock`, in the units of the column.
unfoldable pub current_stock : List StockMovement → String → String → ℤ
current_stock [] warehouse material = pos 0
current_stock (m ∷ ms) warehouse material =
    let rest = current_stock ms warehouse material in
    if is_stock_of warehouse material m then m.quantity +ℤ rest else rest

pub record ChargeSnapshot : Type 0 where
  pub unit_charge_price : Option ℤ
  pub charge_amount : ℤ
  pub charge_price_source : Option ChargePriceSource
  pub charge_remark : Option String

abbrev no_charge : ChargeSnapshot
no_charge = record {
  unit_charge_price = none;
  charge_amount = pos 0;
  charge_price_source = none;
  charge_remark = none;
}

-- `calculateChargeSnapshot`
unfoldable pub charge_snapshot : Option Material → ℕ → ChargeSnapshot
unfolding to_fixed_4 multiply double input_number
charge_snapshot none quantity = no_charge
charge_snapshot (some material) quantity = elim material.project_site_sale_price [
  | none ↦ no_charge
  | some price ↦
      if material.is_project_site_sale_enabled
      then record {
        unit_charge_price = some price;
        charge_amount = to_fixed_4 (multiply (double price) (input_number quantity));
        charge_price_source = some project_site_price;
        charge_remark = material.project_site_sale_remark;
      }
      else no_charge
]

-- `decimalToNumber(request.approvedQuantity ?? request.requestedQuantity)`, in column units.
abbrev pub target_quantity : UsageRequest → ℕ
target_quantity r = or_else r.approved_quantity r.requested_quantity

abbrev pub target_type : ServiceMode → IssueTarget
target_type direct = project_site
target_type subcontracted = subcontractor

-- The row that `inventoryMovement.create` makes.
unfoldable pub issue_movement :
    UsageRequest → Site → ChargeSnapshot → IssueInput → String → StockMovement
unfolding to_column day_of
issue_movement r site charge input id = record {
  id = id;
  movement_no = input.outbound_no;
  movement_date = day_of input.movement_date;
  movement_type = outbound;
  source_type = some project_usage;
  issue_target_type = some (target_type site.service_mode);
  warehouse_id = r.warehouse_id;
  material_id = r.material_id;
  quantity = neg (pos (to_column input.quantity));
  unit = r.unit;
  unit_charge_price = charge.unit_charge_price;
  charge_amount = some charge.charge_amount;
  charge_price_source = charge.charge_price_source;
  charge_remark = charge.charge_remark;
  project_site_id = some r.project_site_id;
  subcontractor_name = site.subcontractor_name;
  requested_by = r.requested_by;
  handled_by = column input.handled_by;
  received_by_name = column input.received_by_name;
  purpose = r.purpose;
  remark = column input.remark;
  usage_request_id = some r.id;
}

-- `issuedQuantity + input.quantity`
unfoldable pub next_issued : UsageRequest → ℕ → Double
unfolding to_number input_number add
next_issued r quantity = add (to_number r.issued_quantity) (input_number quantity)

-- `Math.max(0, targetQuantity - issuedQuantity)`
unfoldable pub remaining : UsageRequest → Double
unfolding to_number subtract floor_zero
remaining r = floor_zero (subtract (to_number (target_quantity r)) (to_number r.issued_quantity))

-- What `projectUsageRequest.update` writes, from the request as it was read.
unfoldable pub issued_data :
    UsageRequest → ChargeSnapshot → IssueInput → UsageRequest → UsageRequest
unfolding next_issued column_of to_number at_most to_fixed_4 add double day_of
issued_data read charge input r =
    let next = next_issued read input.quantity in
    record r {
      issued_quantity = column_of next;
      outbound_no = some input.outbound_no;
      status = if at_most (to_number (target_quantity read)) next then issued else partially_issued;
      unit_charge_price = charge.unit_charge_price;
      charge_amount = to_fixed_4 (add (double read.charge_amount) (double charge.charge_amount));
      charge_price_source = charge.charge_price_source;
      charge_remark = charge.charge_remark;
      last_issued_at = some (day_of input.movement_date);
      last_received_by_name = assign_text input.received_by_name r.last_received_by_name;
    }

-- `request.status === "rejected" || request.status === "issued"`
abbrev pub is_closed : UsageStatus → Bool
is_closed rejected = true
is_closed issued = true
is_closed _ = false

-- The checks of `issue`, in their order.
unfoldable pub issue_issues : UsageRequest → ℤ → ℕ → List String
unfolding remaining input_number to_signed_number less
issue_issues r stock quantity =
    if is_closed r.status
    then "request is not open for issue" ∷ []
    else if less (remaining r) (input_number quantity)
    then "issue quantity exceeds remaining request quantity" ∷ []
    else if less (to_signed_number stock) (input_number quantity)
    then "insufficient stock for issue" ∷ []
    else []

module _ (U : Table UsageRequest) (M : Ledger StockMovement) (site_of : String → Site)
    (material_of : String → Option Material) where
  abbrev pub Stores : Type 0
  Stores = U.State × M.State

  -- The movement and the update. Prisma refuses a date that is none.
  unfoldable pub issue_open :
      String → UsageRequest → IssueInput → Stores → Result UsageError (Option UsageRequest × Stores)
  unfolding issue_movement issued_data charge_snapshot is_day
  issue_open id r input (u, m) =
      let charge = charge_snapshot (material_of r.material_id) input.quantity in
      elim (is_day input.movement_date) [
        | false ↦ err (map_usage_error failure)
        | true ↦ elim (M.create m (issue_movement r (site_of r.project_site_id) charge input)) [
          | err e ↦ err (map_usage_error e)
          | ok (_, m') ↦ elim (U.update u id (issued_data r charge input)) [
            | err e ↦ err (map_usage_error e)
            | ok (r', u') ↦ ok (some r', (u', m'))
          ]
        ]
      ]

  -- `issue`, inside the transaction of its caller.
  unfoldable pub issue :
      String → IssueInput → Stores → Result UsageError (Option UsageRequest × Stores)
  unfolding issue_open issue_issues current_stock
  issue id input (u, m) = elim (U.find_unique u id) [
    | none ↦ ok (none, (u, m))
    | some r ↦
        elim (issue_issues r (current_stock (M.rows m) r.warehouse_id r.material_id)
          input.quantity) [ [] ↦ issue_open id r input (u, m) | i ∷ is ↦ err (validation (i ∷ is)) ]
  ]
