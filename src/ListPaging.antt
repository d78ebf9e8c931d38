-- ===== src/ListPaging.antt =====
-- The page of a list: apps/api/src/listPaging.ts.
mod Tests
use company_erp.Base.{
  ◌≡◌, refl, ℕ, zero, suc, ◌+◌, ◌*◌, ◌-◌, ◌/◌, ◌≤◌, min, max, String, Bool, true, false, ◌&&◌,
  Option, none, some, List, [], ◌∷◌, leb, codes, trim, is_empty, not, if◌then◌else◌, arith,
  Option-cases, inl, inr, ◌⊎◌,
}
use company_erp.Base.Int.{ℤ, pos, negsuc}
use company_erp.Base.Json.{Json, Properties, num, str, get}
use company_erp.Base.Input.{is_integer, scale}

pub record ListPaging : Type 0 where
  pub limit : ℕ
  pub offset : ℕ

abbrev default_list_limit : ℕ
default_list_limit = 200

abbrev max_list_limit : ℕ
max_list_limit = 500

-- A decimal digit, and the number that digits are.
all_digits : List ℕ → Bool
all_digits [] = true
all_digits (c ∷ cs) = leb b'0' c && leb c b'9' && all_digits cs

parse_digits : ℕ → List ℕ → ℕ
parse_digits n [] = n
parse_digits n (c ∷ cs) = parse_digits (10 * n + (c - b'0')) cs

-- A whole number that is given as a number or by its digits. A negative one is kept as 0, to
-- which both uses of it come.
unfoldable pub to_integer : Json → Option ℕ
unfolding all_digits parse_digits
to_integer (num (pos n)) = if is_integer (pos n) then some (n / scale) else none
to_integer (num (negsuc n)) = if is_integer (negsuc n) then some 0 else none
to_integer (str s) =
    if not (is_empty (trim s)) && all_digits (codes (trim s))
    then some (parse_digits 0 (codes (trim s)))
    else none
to_integer _ = none

unfoldable pub limit_of : Option ℕ → ℕ
limit_of none = default_list_limit
limit_of (some raw) = min (max raw 1) max_list_limit

unfoldable pub offset_of : Option ℕ → ℕ
offset_of none = 0
offset_of (some raw) = raw

unfoldable pub normalize_list_paging : Properties → ListPaging
unfolding limit_of offset_of
normalize_list_paging query = record {
  limit = limit_of (to_integer (get "limit" query));
  offset = offset_of (to_integer (get "offset" query));
}

limit_bounds : (o : Option ℕ) → (1 ≤ limit_of o) × (limit_of o ≤ 500)
unfolding limit_of
limit_bounds none = (omega arith, omega arith)
limit_bounds (some raw) = (omega arith, omega arith)

limit_kept : (n : ℕ) → 1 ≤ n → n ≤ 500 → limit_of (some n) ≡ n
unfolding limit_of
limit_kept n h k = omega arith

-- Whatever the query holds, the limit of a page lies between 1 and 500.
pub normalize_list_paging-bounds :
    (query : Properties)
    → (1 ≤ (normalize_list_paging query).limit) × ((normalize_list_paging query).limit ≤ 500)
unfolding normalize_list_paging
normalize_list_paging-bounds query = limit_bounds (to_integer (get "limit" query))

-- A limit between 1 and 500 that the query gives is taken as it is.
pub normalize_list_paging-kept :
    (query : Properties) (n : ℕ)
    → to_integer (get "limit" query) ≡ some n
    → 1 ≤ n
    → n ≤ 500
    → (normalize_list_paging query).limit ≡ n
unfolding normalize_list_paging
normalize_list_paging-kept query n given low high = rw given (limit_kept n low high)
