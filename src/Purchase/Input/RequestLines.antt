-- ===== src/Purchase/Input/RequestLines.antt =====
-- `normalizeRequestLines` and the two modes of `normalizePurchaseRequestInput`
-- (apps/api/src/modules/purchases/purchases.ts).
pub mod Laws
use Prim.Native.String
use company_erp.Base.{or_else, ℕ, suc, String, Option, none, some, List, [], ◌∷◌, ◌++◌, absent}
use company_erp.Base.Int.{pos}
use company_erp.Base.Decimal.{decimal}
use company_erp.Base.Json.{Json, Items, Properties, obj, arr, items, get}
use company_erp.Base.Input.{nullable_string, required_string, positive_number}
use company_erp.Purchase.Data.{RequestLine}

pub data Mode : Type 0 where
  create update : Mode

-- `lines.${index}${rest}`
abbrev pub line_label : ℕ → String → String
line_label index rest = String.◌++◌ "lines." (String.◌++◌ (decimal index) rest)

request_line : ℕ → Properties → RequestLine × List String
request_line index ps =
    let name = required_string (get "materialName" ps) (line_label index ".materialName") in
    let quantity =
      positive_number (get "requestedQuantity" ps) (line_label index ".requestedQuantity") in
    let unit_text = required_string (get "unit" ps) (line_label index ".unit") in
    (
      record {
        material_id = nullable_string (get "materialId" ps);
        material_code = nullable_string (get "materialCode" ps);
        material_name = or_else name.0 "";
        specification = nullable_string (get "specification" ps);
        requested_quantity = or_else quantity.0 (pos 0);
        unit = or_else unit_text.0 "";
        remark = nullable_string (get "remark" ps);
      },
      name.1 ++ (quantity.1 ++ unit_text.1),
    )

-- The line that stands for an item that is no object.
abbrev empty_line : RequestLine
empty_line = record {
  material_id = absent;
  material_code = absent;
  material_name = "";
  specification = absent;
  requested_quantity = pos 0;
  unit = "";
  remark = absent;
}

line_of : ℕ → Json → RequestLine × List String
unfolding request_line
line_of index (obj ps) = request_line index ps
line_of index _ = (empty_line, line_label index " must be an object" ∷ [])

-- `payload.lines.map((line, index) => ...)`
lines_from : ℕ → List Json → List RequestLine × List String
lines_from index [] = ([], [])
lines_from index (v ∷ vs) =
    let line = line_of index v in
    let rest = lines_from (suc index) vs in (line.0 ∷ rest.0, line.1 ++ rest.1)

unfoldable pub request_lines : Json → Option (List RequestLine) × List String
unfolding lines_from line_of
request_lines (arr (Items.cons v vs)) =
    let lines = lines_from 0 (v ∷ items vs) in (some lines.0, lines.1)
request_lines _ = (none, "lines must contain at least one item" ∷ [])
