-- ===== src/ListPaging/Tests.antt =====
-- Pages of concrete queries.
use company_erp.Base.{◌≡◌, refl, ◌≤◌, trim}
use company_erp.Base.Json.{Properties, property, str, end, get}
use company_erp.ListPaging
use company_erp.ListPaging.{normalize_list_paging, to_integer, limit_of}

abbrev query : Properties
query = property "limit" (str " 50 ") end

abbrev large : Properties
large = property "limit" (str "9999") end

capped : (normalize_list_paging large).limit ≡ 500
unfolding normalize_list_paging to_integer get trim
capped = refl

normalize_list_paging-bounds_example :
    (1 ≤ (normalize_list_paging large).limit) × ((normalize_list_paging large).limit ≤ 500)
normalize_list_paging-bounds_example = ListPaging.normalize_list_paging-bounds large
