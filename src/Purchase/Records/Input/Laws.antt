-- ===== src/Purchase/Records/Input/Laws.antt =====
-- What a body that passes `normalizePurchaseRecordInput` is known to hold.
use company_erp.Base.{
  ◌&&◌, ◌≡◌, refl, ◌⊎◌, inl, inr, ℕ, suc, String, false, Option, none, some, List, [], ◌∷◌, arith,
  subst, ok, finish-eq-ok, is_empty, All, append-eq-nil, Field, given, absent, cleared, Bool-cases,
  or_else,
}
use company_erp.Base.Int.{pos}
use company_erp.Base.Json.{Json, Items, Properties, obj, arr, undefined, items, get}
use company_erp.Base.Input.{
  is_missing, is_unset, issue_if, required_string, positive_number, required_string_ok,
  positive_number_ok, nonnegative_number,
}
use company_erp.Purchase.Status.{RecordStatus, SourceType, platform, supplier, offline}
use company_erp.Purchase.Data.{RecordLine, RecordInput}
use company_erp.Purchase.Input.RequestLines.{create, update, line_label}
use company_erp.Purchase.Input.Laws.{IsText, is_missing_ok}
use company_erp.Purchase.Records.Input.{
  normalize_record_input, record_lines, record_line, line_of, lines_from, lines_field, source_field,
  status_field, record_fields, record_issues, required_fields, source_issues, defaults, no_source,
}

-- A field that holds a text that is not empty.
abbrev pub IsGiven : Field String → Type 0
IsGiven f = (s : String) × (f ≡ given s) × (is_empty s ≡ false)

-- What each source of a purchase calls for.
abbrev pub Sourced : Option SourceType → RecordInput → Type 0
Sourced none r = Unit
Sourced (some platform) r = IsGiven r.purchase_platform
Sourced (some supplier) r = IsGiven r.supplier_party_id ⊎ IsGiven r.supplier_name_text
Sourced (some offline) r = IsGiven r.purchase_description

-- A line that is bought: named, with a unit and a positive quantity.
abbrev pub IsBought : RecordLine → Type 0
IsBought l =
    (is_empty l.material_name ≡ false)
    × ((n : ℕ) × (l.purchase_quantity ≡ pos (suc n)))
    × (is_empty l.unit ≡ false)

is_unset-IsGiven : (f : Field String) (m : String) → issue_if (is_unset f) m ≡ [] → IsGiven f
is_unset-IsGiven (given s) m h = (s, refl, ground arith)
is_unset-IsGiven absent m h = cc
is_unset-IsGiven cleared m h = cc

one-IsGiven :
    (f g : Field String) (m : String)
    → issue_if (is_unset f && is_unset g) m ≡ []
    → IsGiven f ⊎ IsGiven g
one-IsGiven (given s) g m h = elim (Bool-cases (is_empty s)) [
  | inl e ↦ inr (is_unset-IsGiven g m (rw e at h))
  | inr e ↦ inl (s, refl, e)
]
one-IsGiven absent g m h = inr (is_unset-IsGiven g m h)
one-IsGiven cleared g m h = inr (is_unset-IsGiven g m h)

source_issues-Sourced :
    (o : Option SourceType) (r : RecordInput) → source_issues o r ≡ [] → Sourced o r
unfolding source_issues
source_issues-Sourced none r h = tt
source_issues-Sourced (some platform) r h = is_unset-IsGiven r.purchase_platform _ h
source_issues-Sourced (some supplier) r h = one-IsGiven r.supplier_party_id r.supplier_name_text _ h
source_issues-Sourced (some offline) r h = is_unset-IsGiven r.purchase_description _ h

-- A patch that is accepted has what the source that it sets calls for.
pub normalize_record_input-update :
    (body : Json) {r : RecordInput}
    → normalize_record_input body update ≡ ok r
    → Sourced r.source_type r
unfolding normalize_record_input
normalize_record_input-update (obj ps) {r} h =
    let fields = record_fields ps update in
    let (clean, made) = finish-eq-ok (λ is. is) (record_issues ps update) fields h in
    let (_, a) = append-eq-nil (source_field (get "sourceType" ps)).1 _ clean in
    let (_, b) = append-eq-nil (status_field (get "status" ps)).1 _ a in
    let (_, c) = append-eq-nil (lines_field (get "lines" ps) update).1 _ b in
    subst (λ (q : RecordInput). Sourced q.source_type q) made
      (source_issues-Sourced fields.source_type fields c)
normalize_record_input-update _ h = cc

record_line-IsBought :
    (index : ℕ) (ps : Properties)
    → (record_line index ps).1 ≡ []
    → IsBought (record_line index ps).0
unfolding record_line
record_line-IsBought index ps h =
    let name_label = line_label index ".materialName" in
    let quantity_label = line_label index ".purchaseQuantity" in
    let unit_label = line_label index ".unit" in
    let (_, a) =
      append-eq-nil
        (nonnegative_number (get "purchasePrice" ps) (line_label index ".purchasePrice")).1 _ h in
    let (b, c) = append-eq-nil (required_string (get "materialName" ps) name_label).1 _ a in
    let (d, e) = append-eq-nil (positive_number (get "purchaseQuantity" ps) quantity_label).1 _ c in
    let (s, es, full) = required_string_ok (get "materialName" ps) name_label b in
    let (n, en) = positive_number_ok (get "purchaseQuantity" ps) quantity_label d in
    let (u, eu, filled) = required_string_ok (get "unit" ps) unit_label e in
    (rw es full, (n, rw en refl), rw eu filled)

line_of-IsBought : (index : ℕ) (v : Json) → (line_of index v).1 ≡ [] → IsBought (line_of index v).0
unfolding line_of
line_of-IsBought index (obj ps) h = record_line-IsBought index ps h
line_of-IsBought index _ h = cc

lines_from-IsBought :
    (index : ℕ) (vs : List Json)
    → (lines_from index vs).1 ≡ []
    → All IsBought (lines_from index vs).0
unfolding lines_from
lines_from-IsBought index [] h = tt
lines_from-IsBought index (v ∷ vs) h =
    let (a, b) = append-eq-nil (line_of index v).1 _ h in
    (line_of-IsBought index v a, lines_from-IsBought (suc index) vs b)

-- The lines, of which there is one at least.
abbrev pub Bought : Option (List RecordLine) → Type 0
Bought o = (l : RecordLine) × (ls : List RecordLine) × (o ≡ some (l ∷ ls)) × All IsBought (l ∷ ls)

record_lines-Bought : (v : Json) → (record_lines v).1 ≡ [] → Bought (record_lines v).0
unfolding record_lines lines_from
record_lines-Bought (arr (Items.cons v vs)) h =
    ((line_of 0 v).0, (lines_from 1 (items vs)).0, refl, lines_from-IsBought 0 (v ∷ items vs) h)
record_lines-Bought _ h = cc

lines_field-Bought : (v : Json) → (lines_field v create).1 ≡ [] → Bought (lines_field v create).0
unfolding lines_field
lines_field-Bought undefined h = record_lines-Bought undefined h
lines_field-Bought v h = record_lines-Bought v h

-- A new record: numbered, by a purchaser, on a day, from a source with what that calls for, with
-- lines.
pub record IsNewRecord (r : RecordInput) : Type 0 where
  pub numbered : IsText r.purchase_no
  pub bought_by : IsText r.purchaser_name
  pub dated : IsText r.purchase_date
  pub source : SourceType
  pub from : r.source_type ≡ some source
  pub sourced : Sourced (some source) r
  pub placed : (s : RecordStatus) × (r.status ≡ some s)
  pub lined : Bought r.lines

has_source :
    (o : Option SourceType) (m : String)
    → issue_if (no_source o) m ≡ []
    → (t : SourceType) × (o ≡ some t)
has_source (some t) m h = (t, refl)
has_source none m h = cc

or_else-Bought : (o : Option (List RecordLine)) → Bought o → Bought (some (or_else o []))
or_else-Bought (some ls) b = b
or_else-Bought none (l, ls, e, _) = cc

defaults-Sourced :
    (o : Option SourceType) (r : RecordInput) → Sourced o r → Sourced o (defaults create r)
unfolding defaults
defaults-Sourced none r h = h
defaults-Sourced (some platform) r h = h
defaults-Sourced (some supplier) r h = h
defaults-Sourced (some offline) r h = h

-- Every body that is accepted for a new record has a number, a purchaser, a date text that is not
-- empty, a source with what that source calls for, a status, and lines that are all proper.
pub normalize_record_input-create :
    (body : Json) {r : RecordInput} → normalize_record_input body create ≡ ok r → IsNewRecord r
unfolding normalize_record_input
normalize_record_input-create (obj ps) {r} h =
    let fields = record_fields ps create in
    let (clean, made) =
      finish-eq-ok (λ is. is) (record_issues ps create) (defaults create fields) h in
    let (_, a) = append-eq-nil (source_field (get "sourceType" ps)).1 _ clean in
    let (_, b) = append-eq-nil (status_field (get "status" ps)).1 _ a in
    let (lined, c) = append-eq-nil (lines_field (get "lines" ps) create).1 _ b in
    let (needed, sourced) = append-eq-nil (required_fields create fields) _ c in
    let (d, e) = append-eq-nil (issue_if (is_missing fields.purchase_no) _) _ needed in
    let (f, g) = append-eq-nil (issue_if (is_missing fields.purchaser_name) _) _ e in
    let (i, j) = append-eq-nil (issue_if (no_source fields.source_type) _) _ g in
    let (source, from) = has_source fields.source_type _ i in
    subst IsNewRecord made (record {
      numbered = is_missing_ok fields.purchase_no _ d;
      bought_by = is_missing_ok fields.purchaser_name _ f;
      dated = is_missing_ok fields.purchase_date _ j;
      source = source;
      from = from;
      sourced = defaults-Sourced (some source) fields (
          subst (λ o. Sourced o fields) from
            (source_issues-Sourced fields.source_type fields sourced));
      placed = (or_else fields.status RecordStatus.pending_purchase, refl);
      lined = or_else-Bought fields.lines (lines_field-Bought (get "lines" ps) lined);
    })
normalize_record_input-create _ h = cc
