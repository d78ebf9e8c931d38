-- ===== src/Purchase/Filters/Tests.antt =====
-- Filters of a concrete query.
use company_erp.Base.{refl, ◌≤◌, trim, none, some}
use company_erp.Base.Json.{Properties, property, str, end, get}
use company_erp.ListPaging.{normalize_list_paging, to_integer}
use company_erp.Purchase.Filters
use company_erp.Purchase.Filters.{
  RequestFilters, RecordFilters, SortField, normalize_request_filters, normalize_record_filters,
}

abbrev query : Properties
query = property "sortField" (str "purchaseNo") (property "limit" (str "9999") end)

abbrev of_records : RecordFilters
of_records = record {
  status = none;
  source_type = none;
  supplier_party_id = none;
  purchaser_name = none;
  q = none;
  sort_field = some SortField.purchase_no;
  sort_dir = none;
  paging = record { limit = 500; offset = 0 };
}

normalize_record_filters-bounds_example : (1 ≤ 500) × (500 ≤ 500)
unfolding normalize_record_filters normalize_list_paging to_integer get trim
normalize_record_filters-bounds_example =
    Filters.normalize_record_filters-bounds query of_records refl
