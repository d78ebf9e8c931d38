-- ===== src/Purchase/Handlers/Invariant.antt =====
-- What holds of every purchase request between two calls of the purchase routes, in whatever order
-- the calls come and whatever their handlers read before their transactions.
use company_erp.Base.{
  ◌≡◌, refl, inl, inr, ℕ, String, Bool, true, false, Option, none, some, is_empty, some_inj, subst,
  sym, ite_self, ite_other, ℕ_discrete, Result-cases, ok, err, ◌∙◌, given, String-discrete,
}
use company_erp.Base.Json.{Json}
use company_erp.Database.{Table}
use company_erp.Audit.{AuditTable}
use company_erp.Purchase.Status.{
  RequestStatus, RequestAction, draft, pending_approval, purchasing, completed, rejected,
}
use company_erp.Purchase.Data.{PurchaseRequest, RequestInput, ReviewInput}
use company_erp.Purchase.Input.Laws.{
  IsPatchStatus, normalize_request_input-create, normalize_request_input-update,
  normalize_review_input-reject,
}
use company_erp.Purchase.Repository.{
  request_create_data, request_update_data, submit_data, review_data, mark_purchasing,
  is_purchasable, database,
}
use company_erp.Purchase.Handlers.{
  World, Response, success, created, submit_request, approve_request, reject_request, post_request,
  patch_request,
}
use company_erp.Purchase.Handlers.Effects.{
  submit_request-Effect, approve_request-Effect, reject_request-Effect, Effect, Change,
}
use company_erp.Purchase.Handlers.Edits.{
  post_request-Effect, patch_request-Effect, PostEffect, PatchEffect,
}

-- The review columns that a status calls for. No status of the receiving side is ever reached here.
abbrev pub Reviewed : RequestStatus → Option ℕ → Option ℕ → Option String → Type 0
Reviewed draft submitted reviewed remark = Unit
Reviewed RequestStatus.cancelled submitted reviewed remark = Unit
Reviewed pending_approval submitted reviewed remark =
    ((t : ℕ) × (submitted ≡ some t)) × (reviewed ≡ none) × (remark ≡ none)
Reviewed RequestStatus.pending_purchase submitted reviewed remark = (t : ℕ) × (reviewed ≡ some t)
Reviewed purchasing submitted reviewed remark = (t : ℕ) × (reviewed ≡ some t)
Reviewed rejected submitted reviewed remark =
    ((t : ℕ) × (reviewed ≡ some t)) × ((s : String) × (remark ≡ some s) × (is_empty s ≡ false))
Reviewed RequestStatus.partially_received submitted reviewed remark = ⊥
Reviewed completed submitted reviewed remark = ⊥

abbrev pub IsReviewed : PurchaseRequest → Type 0
IsReviewed r = Reviewed r.status r.submitted_at r.reviewed_at r.review_remark

submit_data-IsReviewed : (now : ℕ) (o : PurchaseRequest) → IsReviewed (submit_data now o)
unfolding submit_data
submit_data-IsReviewed now o = ((now, refl), refl, refl)

approve_data-IsReviewed :
    (now : ℕ) (input : ReviewInput) (o : PurchaseRequest)
    → IsReviewed (review_data RequestStatus.pending_purchase now input o)
unfolding review_data
approve_data-IsReviewed now input o = (now, refl)

reject_data-IsReviewed :
    (now : ℕ) (input : ReviewInput) (o : PurchaseRequest) (s : String)
    → input.review_remark ≡ given s
    → is_empty s ≡ false
    → IsReviewed (review_data rejected now input o)
unfolding review_data
reject_data-IsReviewed now input o s e h = ((now, refl), (s, rw e, h))

create_data-IsReviewed :
    (input : RequestInput) (id : String)
    → input.status ≡ some draft
    → IsReviewed (request_create_data input id)
unfolding request_create_data
create_data-IsReviewed input id e = rw e tt

update_data-IsReviewed :
    (input : RequestInput) (o : PurchaseRequest)
    → IsPatchStatus input.status
    → IsReviewed o
    → IsReviewed (request_update_data input o)
unfolding request_update_data
update_data-IsReviewed input o (inl e) h = rw e h
update_data-IsReviewed input o (inr (inl e)) h = rw e tt
update_data-IsReviewed input o (inr (inr e)) h = rw e tt

purchasing-IsReviewed :
    (o : PurchaseRequest)
    → is_purchasable o.status ≡ true
    → IsReviewed o
    → IsReviewed (record o { status = purchasing })
purchasing-IsReviewed o p h = reviewed_when_purchasable o.status p h
  where
    reviewed_when_purchasable :
        (s : RequestStatus)
        → is_purchasable s ≡ true
        → Reviewed s o.submitted_at o.reviewed_at o.review_remark
        → (t : ℕ) × (o.reviewed_at ≡ some t)
    reviewed_when_purchasable RequestStatus.pending_purchase p h = h
    reviewed_when_purchasable purchasing p h = h
    reviewed_when_purchasable _ p h = cc

module _ (T : Table PurchaseRequest) where
  abbrev pub AllReviewed : T.State → Type 0
  AllReviewed s = (j : String) (r : PurchaseRequest) → T.find_unique s j ≡ some r → IsReviewed r

  -- One row is replaced by a reviewed one, and the others stay.
  change_one :
      (s s' : T.State) (id : String) (r : PurchaseRequest)
      → AllReviewed s
      → IsReviewed r
      → T.find_unique s' id ≡ some r
      → ((j : String) → ¬ (j ≡ id) → T.find_unique s' j ≡ T.find_unique s j)
      → AllReviewed s'
  change_one s s' id r all good there others j q found = elim (String-discrete j id) [
    | yes e ↦
        let same : r ≡ q =
          some_inj r q (sym there ∙ subst (λ k. T.find_unique s' k ≡ some q) e found) in
        subst IsReviewed same good
    | no ne ↦ all j q (sym (others j ne) ∙ found)
  ]

  pub mark_purchasing-AllReviewed :
      (id : String) (s s' : T.State)
      → mark_purchasing T id s ≡ ok s'
      → AllReviewed s
      → AllReviewed s'
  unfolding mark_purchasing
  mark_purchasing-AllReviewed id s s' h all =
      let test = λ (r : PurchaseRequest). is_purchasable r.status in
      let buy = λ (r : PurchaseRequest). record r { status = purchasing } in
      elim (Result-cases (T.update_many s id test buy)) [
        | inl (e, failed) ↦
            let thrown : mark_purchasing T id s ≡ err (database e) =
              rw (failed, mark_purchasing) refl in
            cc
        | inr ((n, v), done) ↦
            let marked : mark_purchasing T id s ≡ ok v = rw (done, mark_purchasing) refl in
            let same : v ≡ s' = cc in
            subst AllReviewed same (elim (ℕ_discrete n 1) [
              | yes e ↦
                  let (old, was, passed) = T.update_many_test s id test buy n v done e in
                  let only = T.find-update_many s id test buy old n v done was passed in
                  change_one s v id (buy old) all
                    (purchasing-IsReviewed old passed (all id old was)) (only id ∙ ite_self id _ _)
                    (λ j ne. only j ∙ ite_other j id _ _ ne)
              | no ne ↦ subst AllReviewed (sym (T.update_many_miss s id test buy n v done ne)) all
            ])
      ]

module _ (T : Table PurchaseRequest) (A : AuditTable) (audited : Bool) (actor : Option String) where
  -- One call of a route, with the state that its handler read before its transaction, and the part
  -- that creating a purchase record has in the requests.
  pub data Step (w : World T A audited actor) : World T A audited actor → Type 0 where
    post :
        (configured : Bool) (body : Json)
        → Step w (post_request T A audited actor configured body w).1
    patch :
        (configured : Bool) (id : String) (body : Json)
        → Step w (patch_request T A audited actor configured id body w).1
    submitting :
        (configured : Bool) (id : String) (now : ℕ) (read : T.State)
        → Step w (submit_request T A audited actor configured id now read w).1
    approving :
        (configured : Bool) (id : String) (now : ℕ) (body : Json) (read : T.State)
        → Step w (approve_request T A audited actor configured id now body read w).1
    rejecting :
        (configured : Bool) (id : String) (now : ℕ) (body : Json) (read : T.State)
        → Step w (reject_request T A audited actor configured id now body read w).1
    purchase : (id : String) (s : T.State) → mark_purchasing T id w.0 ≡ ok s → Step w (s, w.1)

  pub data Reach (w : World T A audited actor) : World T A audited actor → Type 0 where
    here : Reach w w
    next : {u v : World T A audited actor} → Reach w u → Step u v → Reach w v

  Effect-AllReviewed :
      (id : String) (action : RequestAction) (name : String) (Made : Change)
      (w : World T A audited actor) (x : Response × World T A audited actor)
      → Effect T A audited actor id action name Made w x
      → ((o r : PurchaseRequest) → Made o r → IsReviewed r)
      → AllReviewed T w.0
      → AllReviewed T x.1.0
  Effect-AllReviewed id action name Made w (success r, w') e good all =
      change_one T w.0 w'.0 id r all (good e.old r e.made) e.now_there e.others
  Effect-AllReviewed id action name Made w (created r, w') e good all = absurd e
  Effect-AllReviewed id action name Made w (_, w') e good all =
      subst (λ (v : World T A audited actor). AllReviewed T v.0) (sym e) all

  post-AllReviewed :
      (body : Json) (w : World T A audited actor) (x : Response × World T A audited actor)
      → PostEffect T A audited actor body w x
      → AllReviewed T w.0
      → AllReviewed T x.1.0
  post-AllReviewed body w (created r, w') e all =
      let drafted = (normalize_request_input-create body e.checked).drafted in
      change_one T w.0 w'.0 e.id r all
        (subst IsReviewed (sym e.made) (create_data-IsReviewed e.input e.id drafted)) e.now_there
        e.others
  post-AllReviewed body w (success r, w') e all = absurd e
  post-AllReviewed body w (_, w') e all =
      subst (λ (v : World T A audited actor). AllReviewed T v.0) (sym e) all

  patch-AllReviewed :
      (id : String) (body : Json) (w : World T A audited actor)
      (x : Response × World T A audited actor)
      → PatchEffect T A audited actor id body w x
      → AllReviewed T w.0
      → AllReviewed T x.1.0
  patch-AllReviewed id body w (success r, w') e all =
      let status = normalize_request_input-update body e.checked in
      change_one T w.0 w'.0 id r all
        (subst IsReviewed (sym e.made)
          (update_data-IsReviewed e.input e.old status (all id e.old e.was)))
        e.now_there e.others
  patch-AllReviewed id body w (created r, w') e all = absurd e
  patch-AllReviewed id body w (_, w') e all =
      subst (λ (v : World T A audited actor). AllReviewed T v.0) (sym e) all

  Step-AllReviewed :
      {w v : World T A audited actor} → Step w v → AllReviewed T w.0 → AllReviewed T v.0
  Step-AllReviewed {w} (post configured body) all =
      post-AllReviewed body w _ (post_request-Effect T A audited actor configured body w) all
  Step-AllReviewed {w} (patch configured id body) all =
      patch-AllReviewed id body w _ (patch_request-Effect T A audited actor configured id body w)
        all
  Step-AllReviewed {w} (submitting configured id now read) all =
      Effect-AllReviewed id _ _ _ w _
        (submit_request-Effect T A audited actor configured id now read w)
        (λ o r e. subst IsReviewed (sym e.written) (submit_data-IsReviewed now o)) all
  Step-AllReviewed {w} (approving configured id now body read) all =
      Effect-AllReviewed id _ _ _ w _
        (approve_request-Effect T A audited actor configured id now body read w)
        (λ o r e. subst IsReviewed (sym e.2) (approve_data-IsReviewed now e.0 o)) all
  Step-AllReviewed {w} (rejecting configured id now body read) all =
      Effect-AllReviewed id _ _ _ w _
        (reject_request-Effect T A audited actor configured id now body read w)
        (λ o r e.
          let (s, given_it, there) = normalize_review_input-reject body e.1 in
          subst IsReviewed (sym e.2) (reject_data-IsReviewed now e.0 o s given_it there))
        all
  Step-AllReviewed {w} (purchase id s marked) all =
      mark_purchasing-AllReviewed T id w.0 s marked all

  -- Through any sequence of calls of the purchase routes, each handler having read any state at all
  -- before its transaction: if every request has the review columns that its status calls for, then
  -- so it is afterwards. A request awaits approval only with a submission time and no review, is
  -- bought only with a review time, and is rejected only with a review time and a remark that is
  -- not empty; none is partially received or completed.
  pub Reach-AllReviewed :
      {w v : World T A audited actor} → AllReviewed T w.0 → Reach w v → AllReviewed T v.0
  Reach-AllReviewed all here = all
  Reach-AllReviewed all (next r st) = Step-AllReviewed st (Reach-AllReviewed all r)
