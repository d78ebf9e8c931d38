-- ===== src/Replenishment/Generate.antt =====
-- `generate` of apps/api/src/infra/prisma/prismaReplenishmentRepository.ts: one suggestion for each
-- material that runs short and has no open one.
pub mod Effects
mod Tests
use company_erp.Base.{
  ℕ, suc, String, Bool, true, false, Option, none, some, List, [], ◌∷◌, ◌++◌, ◌&&◌, keep, is_empty,
  Field, Result, ok, err, str_eq, if◌then◌else◌,
}
use company_erp.Base.Int.{ℤ, pos}
use company_erp.Base.Double.{double, stored, nought, at_most}
use company_erp.Database.{Table}
use company_erp.Replenishment.Quantity.{QuantityInput, suggestion_quantity}
use company_erp.Replenishment.Totals.{Totals, total_of, set_total}
use company_erp.Replenishment.Open.{
  UsageRow, RequestedRow, BoughtRow, stock_key, reserved_usage_by_key, open_purchase_by_material,
}
use company_erp.Replenishment.Suggestions.{
  Suggestion, SuggestionStatus, opened, SuggestionError, map_conflict,
}

-- The columns of a material that `generate` reads.
pub record StockedMaterial : Type 0 where
  pub id : String
  pub material_code : String
  pub material_name : String
  pub specification : Field String
  pub base_unit : String
  pub enabled : Bool
  pub safe_stock : Option ℤ
  pub default_warehouse_id : Option String

-- A group of `groupBy({ by: ["warehouseId", "materialId"], _sum: { quantity: true } })`.
pub record StockGroup : Type 0 where
  pub warehouse_id : String
  pub material_id : String
  pub quantity : ℤ

-- The rows that the five queries see. The materials are in the order of their codes.
pub record Snapshot : Type 0 where
  pub materials : List StockedMaterial
  pub open_suggestions : List Suggestion
  pub stock : List StockGroup
  pub usage : List UsageRow
  pub requested : List RequestedRow
  pub bought : List BoughtRow

abbrev is_given {ℓ} : {A : Type ℓ} → Option A → Bool
is_given none = false
is_given (some _) = true

-- The `where` of the query for materials.
abbrev pub is_watched : StockedMaterial → Bool
is_watched m = m.enabled && (is_given m.safe_stock && is_given m.default_warehouse_id)

-- `new Map(entries)` sets one key after the other.
set_groups : List StockGroup → Totals → Totals
unfolding set_total double
set_groups [] totals = totals
set_groups (g ∷ gs) totals =
    set_groups gs (set_total (stock_key g.warehouse_id g.material_id) (double g.quantity) totals)

-- `currentStockByKey`
unfoldable pub current_stock_by_key : List StockGroup → Totals
unfolding set_groups
current_stock_by_key groups = set_groups groups []

-- `openByKey.get(key)`, where a later suggestion of the same key replaces an earlier one.
unfoldable pub open_at : String → List Suggestion → Option Suggestion
open_at key [] = none
open_at key (s ∷ ss) = elim (open_at key ss) [
  | some t ↦ some t
  | none ↦ if str_eq (stock_key s.warehouse_id s.material_id) key then some s else none
]

abbrev amount_or_zero : Option ℤ → ℤ
amount_or_zero none = pos 0
amount_or_zero (some n) = n

-- What the suggested quantity is calculated from.
unfoldable pub quantity_input : Snapshot → StockedMaterial → String → QuantityInput
unfolding current_stock_by_key double
quantity_input snapshot m warehouse = record {
  safe_stock = double (amount_or_zero m.safe_stock);
  current_stock = total_of (stock_key warehouse m.id) (current_stock_by_key snapshot.stock);
  reserved_usage_qty = total_of (stock_key warehouse m.id) (reserved_usage_by_key snapshot.usage);
  open_purchase_qty = total_of m.id (open_purchase_by_material snapshot.requested snapshot.bought);
}

-- The row of a new suggestion.
unfoldable pub generated_data : Snapshot → StockedMaterial → String → String → Suggestion
unfolding quantity_input stored
generated_data snapshot m warehouse id =
    let input = quantity_input snapshot m warehouse in
    record {
      id = id;
      warehouse_id = warehouse;
      material_id = m.id;
      material_code = m.material_code;
      material_name = m.material_name;
      specification = m.specification;
      base_unit = m.base_unit;
      safe_stock = stored input.safe_stock;
      current_stock = stored input.current_stock;
      reserved_usage_qty = stored input.reserved_usage_qty;
      open_purchase_qty = stored input.open_purchase_qty;
      suggested_quantity = stored (suggestion_quantity input);
      status = opened;
      converted_purchase_request_id = none;
      remark = some "系统根据安全库存生成";
    }

-- `{ created, existingOpen, skipped }`
pub record Generated : Type 0 where
  pub created : List Suggestion
  pub existing_open : List Suggestion
  pub skipped : ℕ

abbrev pub skip_one : Generated → Generated
skip_one g = record g { skipped = suc g.skipped }

abbrev pub with_existing : Suggestion → Generated → Generated
with_existing s g = record g { existing_open = g.existing_open ++ (s ∷ []) }

abbrev pub with_created : Suggestion → Generated → Generated
with_created s g = record g { created = g.created ++ (s ∷ []) }

-- What one round of the loop does with a material.
pub data Decision : Type 0 where
  skip : Decision
  keep_open : Suggestion → Decision
  make : String → Decision

-- A material with a warehouse.
unfoldable pub decide_in : Snapshot → StockedMaterial → String → Decision
unfolding quantity_input open_at at_most
decide_in snapshot m warehouse =
    if at_most (suggestion_quantity (quantity_input snapshot m warehouse)) nought
    then skip
    else elim (open_at (stock_key warehouse m.id) snapshot.open_suggestions) [
      | some s ↦ keep_open s
      | none ↦ make warehouse
    ]

-- A material whose default warehouse is this one, if any.
unfoldable pub decide_at : Snapshot → StockedMaterial → Option String → Decision
unfolding decide_in
decide_at snapshot m none = skip
decide_at snapshot m (some warehouse) =
    if is_empty warehouse then skip else decide_in snapshot m warehouse

unfoldable pub decide_on : Snapshot → StockedMaterial → Decision
unfolding decide_at
decide_on snapshot m = decide_at snapshot m m.default_warehouse_id

module _ (S : Table Suggestion) (snapshot : Snapshot) where
  -- The loop. Each suggestion is created on its own: what was created before a failure stays.
  unfoldable pub generate_from :
      List StockedMaterial → Generated → S.State → Result SuggestionError Generated × S.State
  unfolding decide_on generated_data
  generate_from [] g s = (ok g, s)
  generate_from (m ∷ ms) g s = elim (decide_on snapshot m) [
    | skip ↦ generate_from ms (skip_one g) s
    | keep_open existing ↦ generate_from ms (with_existing existing g) s
    | make warehouse ↦ elim (S.create s (generated_data snapshot m warehouse)) [
      | err e ↦ (err (map_conflict e), s)
      | ok (id, s') ↦ generate_from ms (with_created (generated_data snapshot m warehouse id) g) s'
    ]
  ]

  -- `generate`
  unfoldable pub generate : S.State → Result SuggestionError Generated × S.State
  unfolding generate_from
  generate s =
      generate_from (keep is_watched snapshot.materials)
        (record { created = []; existing_open = []; skipped = 0 }) s
