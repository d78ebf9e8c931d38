-- ===== src/Replenishment/Routes/Effects.antt =====
-- What the conversion route has done, by the response.
use company_erp.Base.{
  ◌≡◌, refl, ap, ◌⊎◌, inl, inr, String, Bool, true, false, Option, none, some, Result, ok, err,
  Result-cases, Option-cases,
}
use company_erp.Base.Json.{Json}
use company_erp.Database.{Table}
use company_erp.Audit.{AuditTable, write_audit_log, write_audit_log-entries, with_entry}
use company_erp.Purchase.Data.{PurchaseRequest}
use company_erp.Replenishment.Input.{normalize_convert_input}
use company_erp.Replenishment.Suggestions.{
  Suggestion, ConvertInput, SuggestionError, already_converted, open_duplicate, request_no,
  database, convert_to_purchase_request,
}
use company_erp.Replenishment.Suggestions.Conversion.{
  Converted, ConvertEffect, convert_to_purchase_request-Effect,
}
use company_erp.Replenishment.Routes.{
  Response, created, server_error, World, entry, converted_reply, conversion_reply, error_reply,
  post_conversion,
}

module _ (S : Table Suggestion) (T : Table PurchaseRequest) (A : AuditTable) (audited : Bool)
    (actor : Option String) where
  -- The conversion that a checked body asks for was made.
  pub record Made (id : String) (body : Json) (w w' : World S T A audited actor) (r : Suggestion)
      (q : PurchaseRequest) : Type 0 where
    pub input : ConvertInput
    pub checked : normalize_convert_input body ≡ ok input
    pub did : Converted S T id input w.0 w'.0 r q

  -- A success is logged; an internal error may come after a conversion that was made and is not.
  abbrev pub RouteEffect :
      String → Json → World S T A audited actor → Response × World S T A audited actor → Type 0
  RouteEffect id body w (created r q, w') =
      Made id body w w' r q
      × (A.entries w'.1
          ≡ with_entry A audited
              (entry S T A audited actor "replenishment_suggestion.convert_to_purchase_request"
                r.id)
              w.1)
  RouteEffect id body w (server_error, w') =
      (w' ≡ w) ⊎ ((r : Suggestion) × (q : PurchaseRequest) × Made id body w w' r q × (w'.1 ≡ w.1))
  RouteEffect id body w (_, w') = w' ≡ w

  converted_reply-Effect :
      (id : String) (body : Json) (w : World S T A audited actor) (w' : S.State × T.State)
      (r : Suggestion) (q : PurchaseRequest)
      → Made id body w (w', w.1) r q
      → RouteEffect id body w (converted_reply S T A audited actor r q (w', w.1))
  unfolding converted_reply
  converted_reply-Effect id body w w' r q made =
      let note =
        entry S T A audited actor "replenishment_suggestion.convert_to_purchase_request" r.id in
      elim (Option-cases (write_audit_log A audited w.1 note)) [
        | inl failed ↦ rw (failed, converted_reply) (inr (r, q, made, refl))
        | inr (a', done) ↦
            rw (done, converted_reply)
              (
                record { input = made.input; checked = made.checked; did = made.did },
                write_audit_log-entries A audited w.1 note a' done,
              )
      ]

  conversion_reply-Effect :
      (id : String) (body : Json) (input : ConvertInput) (w : World S T A audited actor)
      (x : Result SuggestionError (Option (Suggestion × PurchaseRequest)) × (S.State × T.State))
      → normalize_convert_input body ≡ ok input
      → ConvertEffect S T id input w.0 x
      → RouteEffect id body w (conversion_reply S T A audited actor x w.1)
  unfolding conversion_reply error_reply
  conversion_reply-Effect id body input w (ok (some (r, q)), w') good e =
      converted_reply-Effect id body w w' r q (record { input = input; checked = good; did = e })
  conversion_reply-Effect id body input w (ok none, w') good (e, _) = ap (λ v. (v, w.1)) e
  conversion_reply-Effect id body input w (err already_converted, w') good e = ap (λ v. (v, w.1)) e
  conversion_reply-Effect id body input w (err open_duplicate, w') good e = ap (λ v. (v, w.1)) e
  conversion_reply-Effect id body input w (err request_no, w') good e = ap (λ v. (v, w.1)) e
  conversion_reply-Effect id body input w (err (database x), w') good e = inl (ap (λ v. (v, w.1)) e)

  -- The conversion route: a success converted the open suggestion as the checked body says and
  -- logged it; an internal error changed nothing, or made the conversion and logged nothing; any
  -- other response changed nothing.
  pub post_conversion-Effect :
      (configured : Bool) (id : String) (body : Json) (w : World S T A audited actor)
      → RouteEffect id body w (post_conversion S T A audited actor configured id body w)
  unfolding post_conversion
  post_conversion-Effect false id body w = refl
  post_conversion-Effect true id body w = elim (Result-cases (normalize_convert_input body)) [
    | inl (issues, bad) ↦ rw (bad, post_conversion) refl
    | inr (input, good) ↦
        rw (good, post_conversion)
          (conversion_reply-Effect id body input w (convert_to_purchase_request S T id input w.0)
            good (convert_to_purchase_request-Effect S T id input w.0))
  ]
