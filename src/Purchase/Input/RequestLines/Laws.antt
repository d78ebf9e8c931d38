-- ===== src/Purchase/Input/RequestLines/Laws.antt =====
-- What the lines of an accepted request hold.
use company_erp.Base.{ℕ, suc, ◌≡◌, refl, false, some, List, [], ◌∷◌, is_empty, All, append-eq-nil}
use company_erp.Base.Int.{pos}
use company_erp.Base.Json.{Json, Items, Properties, obj, arr, items, get}
use company_erp.Base.Input.{
  required_string, positive_number, required_string_ok, positive_number_ok,
}
use company_erp.Purchase.Data.{RequestLine}
use company_erp.Purchase.Input.RequestLines.{
  request_line, line_of, lines_from, request_lines, line_label,
}

-- A line names its material and its unit, and asks for a positive quantity.
pub record IsLine (l : RequestLine) : Type 0 where
  pub named : is_empty l.material_name ≡ false
  pub unit_named : is_empty l.unit ≡ false
  pub positive : (n : ℕ) × (l.requested_quantity ≡ pos (suc n))

request_line-IsLine :
    (i : ℕ) (ps : Properties) → (request_line i ps).1 ≡ [] → IsLine (request_line i ps).0
unfolding request_line
request_line-IsLine i ps h =
    let name = required_string (get "materialName" ps) (line_label i ".materialName") in
    let quantity =
      positive_number (get "requestedQuantity" ps) (line_label i ".requestedQuantity") in
    let (a, bc) = append-eq-nil name.1 _ h in
    let (b, c) = append-eq-nil quantity.1 _ bc in
    let (s, es, ns) = required_string_ok (get "materialName" ps) (line_label i ".materialName") a in
    let (n, en) =
      positive_number_ok (get "requestedQuantity" ps) (line_label i ".requestedQuantity") b in
    let (t, et, nt) = required_string_ok (get "unit" ps) (line_label i ".unit") c in
    record { named = rw es ns; unit_named = rw et nt; positive = (n, rw en) }

line_of-IsLine : (i : ℕ) (v : Json) → (line_of i v).1 ≡ [] → IsLine (line_of i v).0
unfolding line_of
line_of-IsLine i (obj ps) h = request_line-IsLine i ps h
line_of-IsLine i _ h = cc

lines_from-IsLine :
    (i : ℕ) (vs : List Json) → (lines_from i vs).1 ≡ [] → All IsLine (lines_from i vs).0
unfolding lines_from
lines_from-IsLine i [] h = tt
lines_from-IsLine i (v ∷ vs) h =
    let (a, b) = append-eq-nil _ _ h in (line_of-IsLine i v a, lines_from-IsLine (suc i) vs b)

-- Accepted lines are there, are not empty, and each is a proper line.
pub request_lines-IsLine :
    (v : Json)
    → (request_lines v).1 ≡ []
    → (l : RequestLine) × (ls : List RequestLine) × ((request_lines v).0 ≡ some (l ∷ ls))
      × All IsLine (l ∷ ls)
unfolding request_lines lines_from
request_lines-IsLine (arr (Items.cons v vs)) h =
    ((line_of 0 v).0, (lines_from 1 (items vs)).0, refl, lines_from-IsLine 0 (v ∷ items vs) h)
request_lines-IsLine (arr Items.nil) h = cc
request_lines-IsLine _ h = cc
