-- ===== src/Purchase/Handlers/Races.antt =====
-- A request is decided once, also when several handlers have read it as pending.
use company_erp.Base.{
  ◌≡◌, refl, ◌≢◌, ℕ, String, Bool, Option, some, arith, subst, sym, ◌∙◌, some_inj,
}
use company_erp.Base.Json.{Json}
use company_erp.Database.{Table}
use company_erp.Audit.{AuditTable}
use company_erp.Purchase.Status.{RequestStatus, RequestAction, submit, approve, reject, next_status}
use company_erp.Purchase.Data.{PurchaseRequest}
use company_erp.Purchase.Handlers.{
  World, Response, success, approve_request, reject_request, submit_request,
}
use company_erp.Purchase.Handlers.Effects.{
  Effect, Acted, Change, approve_request-Effect, reject_request-Effect, submit_request-Effect,
}

-- No action is allowed in a status that a review leads to.
decided :
    (s t u : RequestStatus) (first second : RequestAction)
    → first ≢ submit
    → next_status s first ≡ some t
    → next_status t second ≡ some u
    → ⊥
unfolding next_status
decided s t u submit second ne h k = ne refl
decided s t u approve submit ne h k = ground arith
decided s t u approve approve ne h k = ground arith
decided s t u approve reject ne h k = ground arith
decided s t u reject submit ne h k = ground arith
decided s t u reject approve ne h k = ground arith
decided s t u reject reject ne h k = ground arith

module _ (T : Table PurchaseRequest) (A : AuditTable) (audited : Bool) (actor : Option String) where
  decided_after :
      (id : String) (first second : RequestAction) (n m : String) (M K : Change)
      (w w' v v' : World T A audited actor) (r q : PurchaseRequest)
      → first ≢ submit
      → Acted T A audited actor id first n M w w' r
      → T.find_unique v.0 id ≡ T.find_unique w'.0 id
      → Acted T A audited actor id second m K v v' q
      → ⊥
  decided_after id first second n m M K w w' v v' r q ne one same two =
      let e : two.old ≡ r = some_inj two.old r (sym two.was ∙ same ∙ one.now_there) in
      decided one.old.status r.status q.status first second ne one.allowed
        (subst (λ (p : PurchaseRequest). next_status p.status second ≡ some q.status) e two.allowed)

  of_success :
      (id : String) (action : RequestAction) (n : String) (M : Change) (w : World T A audited actor)
      (x : Response × World T A audited actor) (r : PurchaseRequest)
      → Effect T A audited actor id action n M w x
      → x.0 ≡ success r
      → Acted T A audited actor id action n M w x.1 r
  of_success id action n M w (success q, v) r e h =
      let same : q ≡ r = cc in subst (λ p. Acted T A audited actor id action n M w v p) same e
  of_success id action n M w (_, v) r e h = cc

  -- Once an approval has succeeded, no later submission, approval or rejection of the request
  -- succeeds while its row is as the approval left it, whatever the later handler had read before
  -- (also a state in which the request was still pending).
  pub approve_request-once :
      (configured : Bool) (id : String) (now : ℕ) (body : Json) (read : T.State)
      (w v : World T A audited actor) (r q : PurchaseRequest) (configured' : Bool) (now' : ℕ)
      (body' : Json) (read' : T.State)
      → (approve_request T A audited actor configured id now body read w).0 ≡ success r
      → T.find_unique v.0 id
        ≡ T.find_unique (approve_request T A audited actor configured id now body read w).1.0 id
      → ((submit_request T A audited actor configured' id now' read' v).0 ≢ success q)
        × ((approve_request T A audited actor configured' id now' body' read' v).0 ≢ success q)
        × ((reject_request T A audited actor configured' id now' body' read' v).0 ≢ success q)
  approve_request-once configured id now body read w v r q configured' now' body' read' h same =
      let one =
        of_success id approve _ _ w _ r
          (approve_request-Effect T A audited actor configured id now body read w) h in
      (
        λ k. decided_after id approve submit _ _ _ _ w _ v _ r q (cc) one same (
            of_success id submit _ _ v _ q
              (submit_request-Effect T A audited actor configured' id now' read' v) k),
        λ k. decided_after id approve approve _ _ _ _ w _ v _ r q (cc) one same (
            of_success id approve _ _ v _ q
              (approve_request-Effect T A audited actor configured' id now' body' read' v) k),
        λ k. decided_after id approve reject _ _ _ _ w _ v _ r q (cc) one same (
            of_success id reject _ _ v _ q
              (reject_request-Effect T A audited actor configured' id now' body' read' v) k),
      )
