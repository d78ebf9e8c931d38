-- ===== src/Purchase/Input/Laws.antt =====
-- What a request body that passes `normalizePurchaseRequestInput` or
-- `normalizePurchaseRequestReviewInput` is known to hold.
use company_erp.Base.{
  ◌≡◌, refl, ◌⊎◌, inl, inr, Option-cases, String, false, Option, none, some, List, [], ◌∷◌, arith,
  subst, ok, finish-eq-ok, is_empty, All, append-eq-nil, Field, given, absent, cleared,
}
use company_erp.Base.Json.{Json, obj, undefined, str, get}
use company_erp.Base.Input.{is_missing, is_unset, issue_if}
use company_erp.Purchase.Status.{RequestStatus, draft, cancelled, request_status_of}
use company_erp.Purchase.Data.{RequestLine, RequestInput, ReviewInput}
use company_erp.Purchase.Input.{
  normalize_request_input, normalize_review_input, request_issues, request_fields, patchable,
  defaults, status_field, lines_field, reject,
}
use company_erp.Purchase.Input.RequestLines.{create, update}
use company_erp.Purchase.Input.RequestLines.Laws.{IsLine, request_lines-IsLine}

-- A text that is there and not empty.
abbrev pub IsText : Option String → Type 0
IsText o = (s : String) × (o ≡ some s) × (is_empty s ≡ false)

pub is_missing_ok : (o : Option String) (m : String) → issue_if (is_missing o) m ≡ [] → IsText o
is_missing_ok none m h = ground arith
is_missing_ok (some s) m h = (s, refl, ground arith)

-- A new request: numbered, with a requester, a department and lines, and a draft.
pub record IsNewRequest (r : RequestInput) : Type 0 where
  pub numbered : IsText r.request_no
  pub requested : IsText r.requester_name
  pub placed : IsText r.department_name
  pub drafted : r.status ≡ some draft
  pub first : RequestLine
  pub rest : List RequestLine
  pub listed : r.lines ≡ some (first ∷ rest)
  pub proper : All IsLine (first ∷ rest)

patchable-create :
    (s : RequestStatus) → (patchable create s).1 ≡ [] → (patchable create s).0 ≡ some draft
unfolding patchable
patchable-create RequestStatus.draft h = refl
patchable-create _ h = cc

status_field-create :
    (v : Json)
    → (status_field v create).1 ≡ []
    → ((status_field v create).0 ≡ none) ⊎ ((status_field v create).0 ≡ some draft)
unfolding status_field
status_field-create undefined h = inl refl
status_field-create (str code) h = elim (Option-cases (request_status_of code)) [
  | inl e ↦ inl (rw (e, status_field))
  | inr (s, e) ↦ inr (rw (e, status_field) (patchable-create s (rw (e, status_field) at h)))
]
status_field-create _ h = inl refl

lines_field-create :
    (v : Json)
    → (lines_field v create).1 ≡ []
    → (l : RequestLine) × (ls : List RequestLine) × ((lines_field v create).0 ≡ some (l ∷ ls))
      × All IsLine (l ∷ ls)
unfolding lines_field
lines_field-create undefined h = request_lines-IsLine undefined h
lines_field-create v h = request_lines-IsLine v h

-- Every body that the API accepts for a new request describes a proper one, a draft.
pub normalize_request_input-create :
    (body : Json) {r : RequestInput} → normalize_request_input body create ≡ ok r → IsNewRequest r
unfolding normalize_request_input
normalize_request_input-create (obj ps) {r} h =
    let fields = request_fields ps create in
    let (none_pushed, made) =
      finish-eq-ok (λ is. is) (request_issues ps create) (defaults create fields) h in
    let status = status_field (get "status" ps) create in
    let lines = lines_field (get "lines" ps) create in
    let (a, bc) = append-eq-nil status.1 _ none_pushed in
    let (b, c) = append-eq-nil lines.1 _ bc in
    let (l, ls, el, proper) = lines_field-create (get "lines" ps) b in
    let (numbered, de) = append-eq-nil (issue_if (is_missing fields.request_no) _) _ c in
    let (requested, placed) = append-eq-nil (issue_if (is_missing fields.requester_name) _) _ de in
    subst IsNewRequest made (record {
      numbered = is_missing_ok fields.request_no _ numbered;
      requested = is_missing_ok fields.requester_name _ requested;
      placed = is_missing_ok fields.department_name _ placed;
      drafted = ground (arith, status_field-create (get "status" ps) a);
      first = l;
      rest = ls;
      listed = cc;
      proper = proper;
    })
normalize_request_input-create _ h = cc

is_unset_ok :
    (f : Field String) → is_unset f ≡ false → (s : String) × (f ≡ given s) × (is_empty s ≡ false)
is_unset_ok (given s) h = (s, refl, h)
is_unset_ok absent h = cc
is_unset_ok cleared h = cc

-- A rejection that is accepted carries a remark that is not empty.
pub normalize_review_input-reject :
    (body : Json) {r : ReviewInput}
    → normalize_review_input body reject ≡ ok r
    → (s : String) × (r.review_remark ≡ given s) × (is_empty s ≡ false)
unfolding normalize_review_input
normalize_review_input-reject (obj ps) {r} h = is_unset_ok r.review_remark (ground arith)
normalize_review_input-reject undefined h = cc
normalize_review_input-reject _ h = cc

-- A patch sets no status, or draft, or cancelled.
abbrev pub IsPatchStatus : Option RequestStatus → Type 0
IsPatchStatus o = (o ≡ none) ⊎ (o ≡ some draft) ⊎ (o ≡ some cancelled)

patchable-update : (s : RequestStatus) → IsPatchStatus (patchable update s).0
unfolding patchable
patchable-update RequestStatus.draft = inr (inl refl)
patchable-update RequestStatus.cancelled = inr (inr refl)
patchable-update _ = inl refl

status_field-update : (v : Json) → IsPatchStatus (status_field v update).0
unfolding status_field
status_field-update (str code) = elim (Option-cases (request_status_of code)) [
  | inl e ↦ inl (rw (e, status_field))
  | inr (s, e) ↦ rw (e, status_field) (patchable-update s)
]
status_field-update undefined = inl refl
status_field-update _ = inl refl

-- A patch that is accepted sets no status, draft or cancelled.
pub normalize_request_input-update :
    (body : Json) {r : RequestInput}
    → normalize_request_input body update ≡ ok r
    → IsPatchStatus r.status
unfolding normalize_request_input
normalize_request_input-update (obj ps) {r} h =
    let fields = request_fields ps update in
    let (_, made) = finish-eq-ok (λ is. is) (request_issues ps update) fields h in
    subst (λ (q : RequestInput). IsPatchStatus q.status) made
      (status_field-update (get "status" ps))
normalize_request_input-update _ h = cc
