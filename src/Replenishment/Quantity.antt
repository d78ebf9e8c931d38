-- ===== src/Replenishment/Quantity.antt =====
-- `calculateReplenishmentSuggestionQuantity` of packages/shared/src/index.ts.
use company_erp.Base.Double.{Double, add, subtract, floor_zero}

pub record QuantityInput : Type 0 where
  pub safe_stock : Double
  pub current_stock : Double
  pub reserved_usage_qty : Double
  pub open_purchase_qty : Double

unfoldable pub suggestion_quantity : QuantityInput → Double
unfolding add subtract floor_zero
suggestion_quantity input = floor_zero (
    subtract (subtract (add input.safe_stock input.reserved_usage_qty) input.current_stock)
      input.open_purchase_qty)
