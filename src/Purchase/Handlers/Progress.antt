-- ===== src/Purchase/Handlers/Progress.antt =====
-- A draft goes all the way: submitted, and then approved.
use company_erp.Base.{◌≡◌, refl, sym, ◌∙◌, subst, ℕ, String, Bool, true, Option, some, ok}
use company_erp.Base.Json.{Json}
use company_erp.Database.{Table}
use company_erp.Audit.{AuditTable, AuditEntry, write_audit_log, run_in_transaction}
use company_erp.Purchase.Status.{
  RequestStatus, draft, pending_approval, pending_purchase, RequestAction, submit, approve,
  next_status,
}
use company_erp.Purchase.Data.{PurchaseRequest, ReviewInput}
use company_erp.Purchase.Input.{Review, normalize_review_input}
use company_erp.Purchase.Repository.{has_status, transition, submit_data, review_data}
use company_erp.Purchase.Repository.Transition.{transition_hit}
use company_erp.Purchase.Handlers.{
  World, Response, success, transition_route, transition_reply, commit, logged, act, acting,
  submitting, reviewing, submit_request, approve_request,
}

module _ (T : Table PurchaseRequest) (A : AuditTable) (audited : Bool) (actor : Option String) where
  -- The trail takes every entry.
  abbrev pub Writes : Type 0
  Writes =
      (s : A.State) (e : AuditEntry) → (s' : A.State) × (write_audit_log A audited s e ≡ some s')

  -- The database takes what an action writes to the row of the id, in the status that it expects.
  abbrev pub Taken :
      String → RequestStatus → (PurchaseRequest → PurchaseRequest) → T.State → T.State → Type 0
  Taken id expected data_of s s' =
      (n : ℕ) × (T.update_many s id (λ (q : PurchaseRequest). has_status expected q.status) data_of
        ≡ ok (n, s'))

  route_hit :
      (id action : String) (data_of : PurchaseRequest → PurchaseRequest)
      (w : World T A audited actor) (r : PurchaseRequest) (s' : T.State)
      → Writes
      → T.find_unique w.0 id ≡ some r
      → Taken id r.status data_of w.0 s'
      → (a' : A.State) × (transition_route T A audited actor action
            (transition T id r.status data_of)
            w
          ≡ (success (data_of r), (s', a')))
        × (T.find_unique s' id ≡ some (data_of r))
  unfolding transition_route commit logged run_in_transaction transition_reply
  route_hit id action data_of w r s' writes was (n, taken) =
      let (moved, there) = transition_hit T id r.status data_of w.0 r n s' taken was refl in
      let (a', written) = writes w.1 (record {
        actor_user_id = actor;
        action = action;
        entity_type = "purchase_request";
        entity_id = some (data_of r).id;
      }) in
      (a', rw (transition_route, commit, logged, run_in_transaction, moved, written) refl, there)

  -- A handler that read the request in a status that allows the action goes on to its transaction.
  acting_allowed :
      (action : RequestAction)
      (go : PurchaseRequest → World T A audited actor → Response × World T A audited actor)
      (id : String) (read : T.State) (w : World T A audited actor) (r : PurchaseRequest)
      (target : RequestStatus)
      → T.find_unique read id ≡ some r
      → next_status r.status action ≡ some target
      → acting T A audited actor action go true id read w ≡ go r w
  unfolding acting act
  acting_allowed action go id read w r target was next = rw (acting, was, act, next) refl

  submitted :
      (id : String) (now : ℕ) (w : World T A audited actor) (r : PurchaseRequest) (s' : T.State)
      → Writes
      → T.find_unique w.0 id ≡ some r
      → r.status ≡ draft
      → Taken id draft (submit_data now) w.0 s'
      → (a' : A.State) × (submit_request T A audited actor true id now w.0 w
          ≡ (success (submit_data now r), (s', a')))
        × (T.find_unique s' id ≡ some (submit_data now r))
  unfolding submit_request submitting next_status
  submitted id now w r s' writes was drafted taken =
      let taken' = subst (λ x. Taken id x (submit_data now) w.0 s') (sym drafted) taken in
      let (a', done, there) =
        route_hit id "purchase_request.submit" (submit_data now) w r s' writes was taken' in
      let next : next_status r.status submit ≡ some pending_approval =
        subst (λ s. next_status s submit ≡ some pending_approval) (sym drafted) refl in
      (
        a',
        acting_allowed submit (submitting T A audited actor id now) id w.0 w r pending_approval was
              next
            ∙ done,
        there,
      )

  approved :
      (id : String) (now : ℕ) (body : Json) (input : ReviewInput) (v : World T A audited actor)
      (r : PurchaseRequest) (s' : T.State)
      → Writes
      → T.find_unique v.0 id ≡ some r
      → r.status ≡ pending_approval
      → normalize_review_input body Review.approve ≡ ok input
      → Taken id pending_approval (review_data pending_purchase now input) v.0 s'
      → (a' : A.State) × (approve_request T A audited actor true id now body v.0 v
          ≡ (success (review_data pending_purchase now input r), (s', a')))
        × (T.find_unique s' id ≡ some (review_data pending_purchase now input r))
  unfolding approve_request reviewing next_status
  approved id now body input v r s' writes was waiting good taken =
      let change = review_data pending_purchase now input in
      let taken' = subst (λ x. Taken id x change v.0 s') (sym waiting) taken in
      let (a', done, there) =
        route_hit id "purchase_request.approve" change v r s' writes was taken' in
      let next : next_status r.status approve ≡ some pending_purchase =
        subst (λ s. next_status s approve ≡ some pending_purchase) (sym waiting) refl in
      let go =
        reviewing T A audited actor id now body Review.approve pending_purchase
          "purchase_request.approve" in
      let checked : go r v ≡ (success (change r), (s', a')) = rw (reviewing, good) done in
      (a', acting_allowed approve go id v.0 v r pending_purchase was next ∙ checked, there)

  -- A draft request is submitted and then approved by two calls with nothing in between, each of
  -- which reads the current state, if the trail takes entries, the body of the review is accepted
  -- and the database takes both writes to the row: both succeed, and the request ends in
  -- `pending_purchase`.
  pub submit_request-approve_request :
      (id : String) (first second : ℕ) (body : Json) (input : ReviewInput)
      (w : World T A audited actor) (r : PurchaseRequest) (s1 s2 : T.State)
      → Writes
      → T.find_unique w.0 id ≡ some r
      → r.status ≡ draft
      → normalize_review_input body Review.approve ≡ ok input
      → Taken id draft (submit_data first) w.0 s1
      → Taken id pending_approval (review_data pending_purchase second input) s1 s2
      → (a1 a2 : A.State) × (q : PurchaseRequest) × (submit_request T A audited actor true id first
            w.0 w
          ≡ (success (submit_data first r), (s1, a1)))
        × (approve_request T A audited actor true id second body s1 (s1, a1)
            ≡ (success q, (s2, a2)))
        × (T.find_unique s2 id ≡ some q)
        × (q.status ≡ pending_purchase)
  unfolding submit_data review_data
  submit_request-approve_request id first second body input w r s1 s2 writes was drafted good
        taken_first taken_second =
      let (a1, sent, there) = submitted id first w r s1 writes was drafted taken_first in
      let (a2, seen, ends) =
        approved id second body input (s1, a1) (submit_data first r) s2 writes there refl good
          taken_second in
      (
        a1,
        a2,
        review_data pending_purchase second input (submit_data first r),
        sent,
        seen,
        ends,
        refl,
      )
