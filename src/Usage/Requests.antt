-- ===== src/Usage/Requests.antt =====
-- `toUsageCreateData`, `toUsageUpdateData`, `create` and `update` of
-- `createPrismaProjectUsageRequestRepository` in
-- apps/api/src/infra/prisma/prismaProjectSitesRepository.ts.
use company_erp.Base.{
  ℕ, String, Option, none, some, or_else, Field, absent, cleared, given, Result, ok, err,
}
use company_erp.Base.Int.{pos}
use company_erp.Database.{Table, DbError, record_not_found}
use company_erp.Inventory.Repository.{column}
use company_erp.Purchase.Repository.{assign_text}
use company_erp.Replenishment.Open.{pending}
use company_erp.Usage.Types.{UsageRequest, UsageInput}
use company_erp.Usage.Issue.{UsageError, map_usage_error, to_column}

-- A nullable quantity column.
assign_quantity : Field ℕ → Option ℕ → Option ℕ
unfolding to_column
assign_quantity absent old = old
assign_quantity cleared old = none
assign_quantity (given q) old = some (to_column q)

-- A quantity column that is not nullable.
assign_count : Option ℕ → ℕ → ℕ
unfolding to_column
assign_count none old = old
assign_count (some q) old = to_column q

-- `toUsageCreateData`, with the columns' defaults where the input has no value.
unfoldable pub usage_create_data : UsageInput → String → UsageRequest
unfolding assign_quantity to_column
usage_create_data input id = record {
  id = id;
  request_no = or_else input.request_no "";
  request_date = or_else input.request_date "";
  project_site_id = or_else input.project_site_id "";
  warehouse_id = or_else input.warehouse_id "";
  material_id = or_else input.material_id "";
  requested_quantity = to_column (or_else input.requested_quantity 0);
  approved_quantity = assign_quantity input.approved_quantity none;
  issued_quantity = 0;
  unit = or_else input.unit "";
  purpose = column input.purpose;
  requested_by = column input.requested_by;
  submitted_by_account_id = column input.submitted_by_account_id;
  submitted_by_name_snapshot = column input.submitted_by_name_snapshot;
  submitted_by_phone_snapshot = column input.submitted_by_phone_snapshot;
  expected_date = column input.expected_date;
  status = or_else input.status pending;
  outbound_no = none;
  unit_charge_price = none;
  charge_amount = pos 0;
  charge_price_source = none;
  charge_remark = none;
  last_issued_at = none;
  last_received_by_name = none;
  remark = column input.remark;
}

-- `toUsageUpdateData`
unfoldable pub usage_update_data : UsageInput → UsageRequest → UsageRequest
unfolding assign_quantity assign_count
usage_update_data input r = record r {
  request_no = or_else input.request_no r.request_no;
  request_date = or_else input.request_date r.request_date;
  project_site_id = or_else input.project_site_id r.project_site_id;
  warehouse_id = or_else input.warehouse_id r.warehouse_id;
  material_id = or_else input.material_id r.material_id;
  requested_quantity = assign_count input.requested_quantity r.requested_quantity;
  approved_quantity = assign_quantity input.approved_quantity r.approved_quantity;
  unit = or_else input.unit r.unit;
  purpose = assign_text input.purpose r.purpose;
  requested_by = assign_text input.requested_by r.requested_by;
  submitted_by_account_id = assign_text input.submitted_by_account_id r.submitted_by_account_id;
  submitted_by_name_snapshot =
      assign_text input.submitted_by_name_snapshot r.submitted_by_name_snapshot;
  submitted_by_phone_snapshot =
      assign_text input.submitted_by_phone_snapshot r.submitted_by_phone_snapshot;
  expected_date = assign_text input.expected_date r.expected_date;
  status = or_else input.status r.status;
  remark = assign_text input.remark r.remark;
}

module _ (U : Table UsageRequest) where
  -- `create`
  unfoldable pub create_usage : UsageInput → U.State → Result UsageError (UsageRequest × U.State)
  unfolding usage_create_data
  create_usage input u = elim (U.create u (usage_create_data input)) [
    | err e ↦ err (map_usage_error e)
    | ok (id, u') ↦ ok (usage_create_data input id, u')
  ]

  -- `isRecordNotFound` answers before `mapUsageError`.
  unfoldable pub update_failed :
      DbError → U.State → Result UsageError (Option UsageRequest × U.State)
  update_failed record_not_found u = ok (none, u)
  update_failed e u = err (map_usage_error e)

  -- `update`, which returns nothing on a missing row.
  unfoldable pub update_usage :
      String → UsageInput → U.State → Result UsageError (Option UsageRequest × U.State)
  unfolding usage_update_data update_failed
  update_usage id input u = elim (U.update u id (usage_update_data input)) [
    | ok (r, u') ↦ ok (some r, u')
    | err e ↦ update_failed e u
  ]
