-- ===== src/Replenishment/Open.antt =====
-- `reservedUsageByKey` and `openPurchaseByMaterialId` of
-- apps/api/src/infra/prisma/prismaReplenishmentRepository.ts, on the rows of their tables. The
-- queries' `where` is kept as a filter.
use Prim.Native.String
use company_erp.Base.{
  ◌≡◌, ap, ◌∙◌, String, Bool, true, false, Option, none, some, List, [], or_else, is_empty, keep,
  if◌then◌else◌,
}
use company_erp.Base.Int.{ℤ}
use company_erp.Base.Double.{Double, nought, double, subtract, floor_zero}
use company_erp.Purchase.Status.{RequestStatus, RecordStatus, draft, pending_approval, ordered}
use company_erp.Replenishment.Totals.{Totals, total_of, add_rows, sum_at, add_rows-sum_at}

pub data UsageStatus : Type 0 where
  pending issued partially_issued rejected : UsageStatus

pub record UsageRow : Type 0 where
  pub warehouse_id : String
  pub material_id : String
  pub status : UsageStatus
  pub requested_quantity : ℤ
  pub approved_quantity : Option ℤ
  pub issued_quantity : ℤ

-- A line of a purchase request, with the request's status.
pub record RequestedRow : Type 0 where
  pub material_id : Option String
  pub status : RequestStatus
  pub requested_quantity : ℤ

-- A line of a purchase record, with the record's status.
pub record BoughtRow : Type 0 where
  pub material_id : Option String
  pub status : RecordStatus
  pub purchase_quantity : ℤ
  pub received_quantity : ℤ

-- `${warehouseId}\u0000${materialId}`
abbrev pub stock_key : String → String → String
stock_key warehouse material = String.◌++◌ warehouse (String.◌++◌ "\0" material)

abbrev pub is_reserving : UsageRow → Bool
is_reserving r = elim r.status [
  | pending ↦ true
  | partially_issued ↦ true
  | issued ↦ false
  | UsageStatus.rejected ↦ false
]

-- What is still to be issued, of the approved quantity where there is one.
unfoldable pub remaining_usage : UsageRow → Double
unfolding double subtract floor_zero
remaining_usage r = floor_zero (
    subtract (double (or_else r.approved_quantity r.requested_quantity)) (double r.issued_quantity))

abbrev pub usage_key : UsageRow → Option String
usage_key r = some (stock_key r.warehouse_id r.material_id)

unfoldable pub reserved_usage_by_key : List UsageRow → Totals
unfolding add_rows remaining_usage
reserved_usage_by_key rows = add_rows usage_key remaining_usage (keep is_reserving rows) []

abbrev pub is_open_request : RequestedRow → Bool
is_open_request r = elim r.status [
  | draft ↦ true
  | pending_approval ↦ true
  | RequestStatus.pending_purchase ↦ true
  | _ ↦ false
]

abbrev pub is_open_record : BoughtRow → Bool
is_open_record r = elim r.status [
  | RecordStatus.pending_purchase ↦ true
  | ordered ↦ true
  | RecordStatus.partially_received ↦ true
  | _ ↦ false
]

-- `if (!line.materialId) continue`
abbrev pub material_key : Option String → Option String
material_key none = none
material_key (some id) = if is_empty id then none else some id

abbrev pub requested_key : RequestedRow → Option String
requested_key r = material_key r.material_id

abbrev pub bought_key : BoughtRow → Option String
bought_key r = material_key r.material_id

unfoldable pub requested_of : RequestedRow → Double
unfolding double
requested_of r = double r.requested_quantity

-- What was bought and has not arrived.
unfoldable pub remaining_purchase : BoughtRow → Double
unfolding double subtract floor_zero
remaining_purchase r =
    floor_zero (subtract (double r.purchase_quantity) (double r.received_quantity))

unfoldable pub open_purchase_by_material : List RequestedRow → List BoughtRow → Totals
unfolding add_rows requested_of remaining_purchase
open_purchase_by_material requested bought =
    let totals = add_rows requested_key requested_of (keep is_open_request requested) [] in
    add_rows bought_key remaining_purchase (keep is_open_record bought) totals

-- The reserved quantity of a warehouse and a material is what its pending and partially issued
-- usage requests have still to be issued, added up as doubles in the order of the rows.
pub reserved_usage_by_key-sum_at :
    (rows : List UsageRow) (warehouse material : String)
    → total_of (stock_key warehouse material) (reserved_usage_by_key rows)
      ≡ sum_at usage_key remaining_usage
          (stock_key warehouse material)
          nought
          (keep is_reserving rows)
unfolding reserved_usage_by_key total_of
reserved_usage_by_key-sum_at rows warehouse material =
    add_rows-sum_at usage_key remaining_usage (keep is_reserving rows) []
      (stock_key warehouse material)

-- The open quantity of a material is what its open requests want, and then what its open records
-- have still to receive, added up as doubles in the order of the rows.
pub open_purchase_by_material-sum_at :
    (requested : List RequestedRow) (bought : List BoughtRow) (material : String)
    → total_of material (open_purchase_by_material requested bought)
      ≡ sum_at bought_key remaining_purchase material
          (sum_at requested_key requested_of material nought (keep is_open_request requested))
          (keep is_open_record bought)
unfolding open_purchase_by_material total_of
open_purchase_by_material-sum_at requested bought material =
    let wanted = keep is_open_request requested in
    let coming = keep is_open_record bought in
    let first = add_rows requested_key requested_of wanted [] in
    add_rows-sum_at bought_key remaining_purchase coming first material
    ∙ ap (λ t. sum_at bought_key remaining_purchase material t coming)
        (add_rows-sum_at requested_key requested_of wanted [] material)
