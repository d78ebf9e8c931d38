-- ===== src/Purchase/Records/Routes/Requests.antt =====
-- What recording a purchase does to the requests.
use company_erp.Base.{◌≡◌, sym, subst, String, Bool, Option, none, some, ok}
use company_erp.Base.Json.{Json}
use company_erp.Database.{Table}
use company_erp.Audit.{AuditTable}
use company_erp.Purchase.Data.{PurchaseRequest}
use company_erp.Purchase.Handlers.Invariant.{AllReviewed, mark_purchasing-AllReviewed}
use company_erp.Purchase.Records.Repository.{PurchaseRecord}
use company_erp.Purchase.Records.Routes.{
  Response, created, World, mark_named, named_request, post_record,
}
use company_erp.Purchase.Records.Routes.Effects.{RecordEffect, post_record-Effect}

module _ (P : Table PurchaseRecord) (T : Table PurchaseRequest) (A : AuditTable) (audited : Bool)
    (actor : Option String) where
  mark_named-AllReviewed :
      (o : Option String) (s s' : T.State)
      → mark_named P T A audited actor o s ≡ ok s'
      → AllReviewed T s
      → AllReviewed T s'
  mark_named-AllReviewed none s s' h all = let same : s ≡ s' = cc in subst (AllReviewed T) same all
  mark_named-AllReviewed (some id) s s' h all = mark_purchasing-AllReviewed T id s s' h all

  effect-AllReviewed :
      (body : Json) (read : T.State) (w : World P T A audited actor)
      (x : Response × World P T A audited actor)
      → RecordEffect P T A audited actor body read w x
      → AllReviewed T w.1
      → AllReviewed T x.1.1
  effect-AllReviewed body read w (created r, w') e all =
      mark_named-AllReviewed (named_request e.input) w.1 w'.1 e.marked all
  effect-AllReviewed body read w (Response.success r, w') e all = absurd e
  effect-AllReviewed body read w (Response.bad_request _, w') e all =
      subst (λ (v : World P T A audited actor). AllReviewed T v.1) (sym e) all
  effect-AllReviewed body read w (Response.not_found, w') e all =
      subst (λ (v : World P T A audited actor). AllReviewed T v.1) (sym e) all
  effect-AllReviewed body read w (Response.unavailable, w') e all =
      subst (λ (v : World P T A audited actor). AllReviewed T v.1) (sym e) all
  effect-AllReviewed body read w (Response.requests_unavailable, w') e all =
      subst (λ (v : World P T A audited actor). AllReviewed T v.1) (sym e) all
  effect-AllReviewed body read w (Response.server_error, w') e all =
      subst (λ (v : World P T A audited actor). AllReviewed T v.1) (sym e) all
  effect-AllReviewed body read w (Response.conflict _, w') e all =
      subst (λ (v : World P T A audited actor). AllReviewed T v.1) (sym e) all

  -- Where every request has the review columns that its status calls for, every request has them
  -- after a call of the route that creates a record, whatever its handler had read before.
  pub post_record-AllReviewed :
      (configured has_requests : Bool) (body : Json) (read : T.State)
      (w : World P T A audited actor)
      → AllReviewed T w.1
      → AllReviewed T (post_record P T A audited actor configured has_requests body read w).1.1
  post_record-AllReviewed configured has_requests body read w =
      effect-AllReviewed body read w
        (post_record P T A audited actor configured has_requests body read w)
        (post_record-Effect P T A audited actor configured has_requests body read w)
