-- ===== src/Replenishment/Suggestions/Conversion.antt =====
-- What converting a suggestion into a purchase request has done.
use company_erp.Base.{
  ◌≡◌, refl, sym, ap, subst, ◌∙◌, ◌⊎◌, inl, inr, String, Option, none, some, [], ◌∷◌, given, Result,
  ok, err, ite_self, ite_other, Option-cases, Result-cases,
}
use company_erp.Database.{Table}
use company_erp.Audit.{run_in_transaction}
use company_erp.Purchase.Status.{RequestStatus}
use company_erp.Purchase.Data.{PurchaseRequest, RequestLine}
use company_erp.Replenishment.Suggestions.{
  SuggestionStatus, opened, converted, dismissed, Suggestion, ConvertInput, SuggestionError,
  already_converted, map_conflict, conversion_data, converted_data, convert_open, convert_found,
  convert_callback, convert_to_purchase_request,
}

status_cases : (x : SuggestionStatus) → (x ≡ opened) ⊎ (x ≡ converted) ⊎ (x ≡ dismissed)
status_cases opened = inl refl
status_cases converted = inr (inl refl)
status_cases dismissed = inr (inr refl)

converted_not_opened : ¬ (converted ≡ opened)
converted_not_opened h = cc

dismissed_not_opened : ¬ (dismissed ≡ opened)
dismissed_not_opened h = cc

-- A request that waits to be purchased and has one line, for the suggested quantity of the
-- suggestion's material in its unit.
pub record AsksFor (s : Suggestion) (q : PurchaseRequest) : Type 0 where
  pub waiting : q.status ≡ RequestStatus.pending_purchase
  pub line : RequestLine
  pub one_line : q.lines ≡ line ∷ []
  pub of_material : line.material_id ≡ given s.material_id
  pub quantity : line.requested_quantity ≡ s.suggested_quantity
  pub unit : line.unit ≡ s.base_unit

conversion_data-AsksFor :
    (input : ConvertInput) (s : Suggestion) (id : String) → AsksFor s (conversion_data input s id)
unfolding conversion_data
conversion_data-AsksFor input s id = record {
  waiting = refl;
  line = _;
  one_line = refl;
  of_material = refl;
  quantity = refl;
  unit = refl;
}

converted-points :
    (id : String) (old r : Suggestion)
    → r ≡ converted_data id old
    → (r.status ≡ converted) × (r.converted_purchase_request_id ≡ some id)
unfolding converted_data
converted-points id old r e = (
  ap (λ (x : Suggestion). x.status) e,
  ap (λ (x : Suggestion). x.converted_purchase_request_id) e,
)

module _ (S : Table Suggestion) (T : Table PurchaseRequest) where
  -- The suggestion was open and is converted, and one new request has its quantity; no other
  -- suggestion or request changed.
  pub record Converted (id : String) (input : ConvertInput) (w w' : S.State × T.State)
      (r : Suggestion) (q : PurchaseRequest) : Type 0 where
    pub old : Suggestion
    pub was : S.find_unique w.0 id ≡ some old
    pub was_open : old.status ≡ opened
    pub request_id : String
    pub fresh : T.find_unique w.1 request_id ≡ none
    pub requested : q ≡ conversion_data input old request_id
    pub asks : AsksFor old q
    pub request_there : T.find_unique w'.1 request_id ≡ some q
    pub other_requests :
        (j : String) → ¬ (j ≡ request_id) → T.find_unique w'.1 j ≡ T.find_unique w.1 j
    pub marked : r ≡ converted_data request_id old
    pub is_converted : r.status ≡ converted
    pub points : r.converted_purchase_request_id ≡ some request_id
    pub now_there : S.find_unique w'.0 id ≡ some r
    pub others : (j : String) → ¬ (j ≡ id) → S.find_unique w'.0 j ≡ S.find_unique w.0 j

  -- A conversion that returns suggestion and request made them; anything else changed nothing.
  abbrev pub ConvertEffect :
      String
      → ConvertInput
      → S.State × T.State
      → Result SuggestionError (Option (Suggestion × PurchaseRequest)) × (S.State × T.State)
      → Type 0
  ConvertEffect id input w (ok (some (r, q)), w') = Converted id input w w' r q
  ConvertEffect id input w (ok none, w') = (w' ≡ w) × (S.find_unique w.0 id ≡ none)
  ConvertEffect id input w (err e, w') = w' ≡ w

  open_cases :
      (id : String) (input : ConvertInput) (old : Suggestion) (w : S.State × T.State)
      → S.find_unique w.0 id ≡ some old
      → old.status ≡ opened
      → ((r : Suggestion) × (q : PurchaseRequest) × (w' : S.State × T.State) × (convert_open S T id
              input old w
            ≡ ok (some (r, q), w'))
          × Converted id input w w' r q)
        ⊎ ((e : SuggestionError) × (convert_open S T id input old w ≡ err e))
  unfolding convert_open
  open_cases id input old (s, t) was was_open =
      elim (Result-cases (T.create t (conversion_data input old))) [
        | inl (e, failed) ↦ inr (map_conflict e, rw (failed, convert_open) refl)
        | inr ((request_id, t'), done) ↦
            elim (Result-cases (S.update s id (converted_data request_id))) [
              | inl (e, failed) ↦ inr (map_conflict e, rw (done, convert_open, failed) refl)
              | inr ((r, s'), set) ↦
                  let q = conversion_data input old request_id in
                  let marked = S.update_row s id (converted_data request_id) old r s' was set in
                  let (is_converted, points) = converted-points request_id old r marked in
                  inl (
                    r,
                    q,
                    (s', t'),
                    rw (done, convert_open, set) refl,
                    record {
                      old = old;
                      was = was;
                      was_open = was_open;
                      request_id = request_id;
                      fresh = T.create_fresh t _ request_id t' done;
                      requested = refl;
                      asks = conversion_data-AsksFor input old request_id;
                      request_there =
                          T.find-create t _ request_id t' done request_id ∙ ite_self request_id _ _;
                      other_requests = λ j ne.
                          T.find-create t _ request_id t' done j ∙ ite_other j request_id _ _ ne;
                      marked = marked;
                      is_converted = is_converted;
                      points = points;
                      now_there = S.find-update s id _ r s' set id ∙ ite_self id _ _;
                      others = λ j ne. S.find-update s id _ r s' set j ∙ ite_other j id _ _ ne;
                    },
                  )
            ]
      ]

  not_open :
      (id : String) (input : ConvertInput) (old : Suggestion) (w : S.State × T.State)
      → S.find_unique w.0 id ≡ some old
      → ¬ (old.status ≡ opened)
      → convert_to_purchase_request S T id input w ≡ (err already_converted, w)
  unfolding convert_to_purchase_request convert_callback run_in_transaction
  not_open id input old (s, t) was ne = elim (status_cases old.status) [
    | inl e ↦ absurd (ne e)
    | inr (inl e) ↦
        rw
          (was, convert_to_purchase_request, convert_callback, run_in_transaction, e, convert_found)
          refl
    | inr (inr e) ↦
        rw
          (was, convert_to_purchase_request, convert_callback, run_in_transaction, e, convert_found)
          refl
  ]

  missing :
      (id : String) (input : ConvertInput) (w : S.State × T.State)
      → S.find_unique w.0 id ≡ none
      → convert_to_purchase_request S T id input w ≡ (ok none, w)
  unfolding convert_to_purchase_request convert_callback run_in_transaction
  missing id input (s, t) e =
      rw (e, convert_to_purchase_request, convert_callback, run_in_transaction) refl

  ran_open :
      (id : String) (input : ConvertInput) (old : Suggestion) (w : S.State × T.State)
      → S.find_unique w.0 id ≡ some old
      → old.status ≡ opened
      → convert_to_purchase_request S T id input w
        ≡ run_in_transaction (convert_open S T id input old) w
  unfolding convert_to_purchase_request convert_callback run_in_transaction conversion_data
  ran_open id input old (s, t) was e =
      rw (was, convert_to_purchase_request, convert_callback, run_in_transaction, e, convert_found)
        refl

  open-Effect :
      (id : String) (input : ConvertInput) (old : Suggestion) (w : S.State × T.State)
      → S.find_unique w.0 id ≡ some old
      → old.status ≡ opened
      → ConvertEffect id input w (run_in_transaction (convert_open S T id input old) w)
  unfolding run_in_transaction
  open-Effect id input old w was e = elim (open_cases id input old w was e) [
    | inl (r, q, w', h, made) ↦ rw (h, run_in_transaction) made
    | inr (x, h) ↦ rw (h, run_in_transaction) refl
  ]

  -- Converting a suggestion: where it returns a suggestion and a request, the suggestion was open
  -- and is now converted and points to the request, which is new, waits to be purchased and has one
  -- line, for the suggested quantity of the suggested material in its unit; where it returns nothing the suggestion is missing; and where it returns nothing or
  -- throws, no suggestion and no request changed.
  pub convert_to_purchase_request-Effect :
      (id : String) (input : ConvertInput) (w : S.State × T.State)
      → ConvertEffect id input w (convert_to_purchase_request S T id input w)
  convert_to_purchase_request-Effect id input w = elim (Option-cases (S.find_unique w.0 id)) [
    | inl e ↦ subst (ConvertEffect id input w) (sym (missing id input w e)) (refl, e)
    | inr (old, was) ↦ elim (status_cases old.status) [
      | inl e ↦
          subst (ConvertEffect id input w) (sym (ran_open id input old w was e))
            (open-Effect id input old w was e)
      | inr (inl e) ↦
          subst (ConvertEffect id input w)
            (sym (not_open id input old w was (λ h. converted_not_opened (sym e ∙ h)))) refl
      | inr (inr e) ↦
          subst (ConvertEffect id input w)
            (sym (not_open id input old w was (λ h. dismissed_not_opened (sym e ∙ h)))) refl
    ]
  ]

  Converted-row :
      (id : String) (input : ConvertInput) (w : S.State × T.State) (r : Suggestion)
      (q : PurchaseRequest)
      (x : Result SuggestionError (Option (Suggestion × PurchaseRequest)) × (S.State × T.State))
      → ConvertEffect id input w x
      → x.0 ≡ ok (some (r, q))
      → Converted id input w x.1 r q
  Converted-row id input w r q (ok (some (r', q')), w') e h =
      let same : r' ≡ r = cc in
      let same' : q' ≡ q = cc in
      subst (λ y. Converted id input w w' r y) same'
        (subst (λ y. Converted id input w w' y q') same e)
  Converted-row id input w r q (ok none, w') e h = cc
  Converted-row id input w r q (err _, w') e h = cc

  -- A suggestion that was converted is not converted again: as long as its row is as the conversion
  -- left it, a second conversion is refused and changes nothing.
  pub convert_to_purchase_request-once :
      (id : String) (input again : ConvertInput) (w v : S.State × T.State) (r : Suggestion)
      (q : PurchaseRequest)
      → (convert_to_purchase_request S T id input w).0 ≡ ok (some (r, q))
      → S.find_unique v.0 id ≡ S.find_unique (convert_to_purchase_request S T id input w).1.0 id
      → convert_to_purchase_request S T id again v ≡ (err already_converted, v)
  convert_to_purchase_request-once id input again w v r q h same =
      let made =
        Converted-row id input w r q (convert_to_purchase_request S T id input w)
          (convert_to_purchase_request-Effect id input w) h in
      not_open id again r v (same ∙ made.now_there)
        (λ k. converted_not_opened (sym made.is_converted ∙ k))
