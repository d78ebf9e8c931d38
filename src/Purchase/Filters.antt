-- ===== src/Purchase/Filters.antt =====
-- `normalizePurchaseRequestFilters` and `normalizePurchaseRecordFilters` of
-- apps/api/src/modules/purchases/purchases.ts.
mod Tests
use company_erp.Base.{
  ◌≡◌, refl, ◌⊎◌, inl, inr, ◌≤◌, String, Bool, Option, none, some, List, [], ◌∷◌, Result, ok, err,
  ◌>>=◌, is_empty, trim, str_eq, if◌then◌else◌, subst, arith,
}
use company_erp.Base.Json.{Json, Properties, undefined, str, get}
use company_erp.ListPaging.{ListPaging, normalize_list_paging, normalize_list_paging-bounds}
use company_erp.Purchase.Status.{
  RequestStatus, RecordStatus, SourceType, request_status_of, record_status_of, source_type_of,
}

pub data SortField : Type 0 where
  purchase_date purchase_no : SortField

pub data SortDirection : Type 0 where
  asc desc : SortDirection

pub record RequestFilters : Type 0 where
  pub status : Option RequestStatus
  pub requester_name : Option String
  pub project_site_id : Option String
  pub q : Option String
  pub paging : ListPaging

pub record RecordFilters : Type 0 where
  pub status : Option RecordStatus
  pub source_type : Option SourceType
  pub supplier_party_id : Option String
  pub purchaser_name : Option String
  pub q : Option String
  pub sort_field : Option SortField
  pub sort_dir : Option SortDirection
  pub paging : ListPaging

-- `typeof query[field] === "string" && query[field].trim()`
text_filter : Json → Option String
text_filter (str s) = if is_empty (trim s) then none else some (trim s)
text_filter _ = none

-- A code that must be supported, where it is given.
code_filter {ℓ} :
    {A : Type ℓ} → (String → Option A) → String → Json → Result (List String) (Option A)
code_filter known issue undefined = ok none
code_filter known issue (str s) = elim (known s) [ none ↦ err (issue ∷ []) | some a ↦ ok (some a) ]
code_filter known issue _ = err (issue ∷ [])

sort_field_of : String → Option SortField
sort_field_of s =
    if str_eq s "purchaseDate"
    then some purchase_date
    else if str_eq s "purchaseNo"
    then some purchase_no
    else none

sort_direction_of : String → Option SortDirection
sort_direction_of s =
    if str_eq s "asc" then some asc else if str_eq s "desc" then some desc else none

unfoldable pub normalize_request_filters : Properties → Result (List String) RequestFilters
unfolding code_filter text_filter
normalize_request_filters query =
    code_filter request_status_of "status filter is unsupported" (get "status" query) >>= λ status.
    ok (record {
      status = status;
      requester_name = text_filter (get "requesterName" query);
      project_site_id = text_filter (get "projectSiteId" query);
      q = text_filter (get "q" query);
      paging = normalize_list_paging query;
    })

sorted_filters :
    Properties → Option RecordStatus → Option SourceType → Result (List String) RecordFilters
unfolding code_filter text_filter sort_field_of sort_direction_of
sorted_filters query status source =
    code_filter sort_field_of "sortField is unsupported" (get "sortField" query) >>= λ field.
    (code_filter sort_direction_of "sortDir is unsupported" (get "sortDir" query) >>= λ dir.
    ok (record {
      status = status;
      source_type = source;
      supplier_party_id = text_filter (get "supplierPartyId" query);
      purchaser_name = text_filter (get "purchaserName" query);
      q = text_filter (get "q" query);
      sort_field = field;
      sort_dir = dir;
      paging = normalize_list_paging query;
    }))

unfoldable pub normalize_record_filters : Properties → Result (List String) RecordFilters
unfolding code_filter sorted_filters
normalize_record_filters query =
    code_filter record_status_of "status filter is unsupported" (get "status" query) >>= λ status.
    (code_filter source_type_of "sourceType filter is unsupported" (get "sourceType" query)
      >>= λ source. sorted_filters query status source)

-- A result that passes a continuation came from a value that passes it.
bind_ok {ℓ κ ι} :
    {E : Type ℓ} {A : Type κ} {B : Type ι} (r : Result E A) (f : A → Result E B) (b : B)
    → (r >>= f) ≡ ok b
    → (a : A) × (f a ≡ ok b)
bind_ok (ok a) f b h = (a, h)
bind_ok (err e) f b h = cc

bounded :
    (query : Properties) (p : ListPaging)
    → normalize_list_paging query ≡ p
    → (1 ≤ p.limit) × (p.limit ≤ 500)
bounded query p e =
    subst (λ (x : ListPaging). (1 ≤ x.limit) × (x.limit ≤ 500)) e
      (normalize_list_paging-bounds query)

-- Every filter that is accepted for the list of purchase records asks for between 1 and 500 rows.
pub normalize_record_filters-bounds :
    (query : Properties) (f : RecordFilters)
    → normalize_record_filters query ≡ ok f
    → (1 ≤ f.paging.limit) × (f.paging.limit ≤ 500)
unfolding normalize_record_filters sorted_filters
normalize_record_filters-bounds query f h =
    let (status, a) =
      bind_ok (code_filter record_status_of "status filter is unsupported" (get "status" query)) _ f
        h in
    let (source, b) =
      bind_ok
        (code_filter source_type_of "sourceType filter is unsupported" (get "sourceType" query)) _ f
        a in
    let (field, c) =
      bind_ok (code_filter sort_field_of "sortField is unsupported" (get "sortField" query)) _ f
        b in
    let (dir, d) =
      bind_ok (code_filter sort_direction_of "sortDir is unsupported" (get "sortDir" query)) _ f
        c in
    bounded query f.paging (cc d)

-- Every filter that is accepted for the list of purchase requests asks for between 1 and 500 rows.
pub normalize_request_filters-bounds :
    (query : Properties) (f : RequestFilters)
    → normalize_request_filters query ≡ ok f
    → (1 ≤ f.paging.limit) × (f.paging.limit ≤ 500)
unfolding normalize_request_filters
normalize_request_filters-bounds query f h =
    let (status, a) =
      bind_ok (code_filter request_status_of "status filter is unsupported" (get "status" query)) _
        f h in
    bounded query f.paging (cc a)
