-- ===== src/Purchase/Handlers/Effects.antt =====
-- What a handler that moves a request along its lifecycle has done, by the response it gives.
use company_erp.Base.{
  Result-cases, ite_self, ite_other, ℕ, ◌≡◌, refl, inl, inr, String, Bool, true, false, Option,
  some, none, ok, err, Option-cases, arith, sym, ◌∙◌, ap, subst,
}
use company_erp.Base.Json.{Json}
use company_erp.Database.{Table}
use company_erp.Audit.{with_entry, AuditTable, write_audit_log, write_audit_log-entries}
use company_erp.Purchase.Status.{
  RequestStatus, pending_approval, RequestAction, submit, approve, reject, next_status,
  next_status-target, transition_target, rejected,
}
use company_erp.Purchase.Data.{PurchaseRequest, ReviewInput}
use company_erp.Purchase.Input.{Review, normalize_review_input}
use company_erp.Purchase.Repository.{
  RepositoryError, state_conflict, field_conflict, database, transition, submit_data, review_data,
}
use company_erp.Purchase.Repository.Transition.{Moved, transition_cases}
use company_erp.Purchase.Handlers.Commit.{entry, commit_cases, commit-err, commit-none}
use company_erp.Purchase.Handlers.{
  Response, success, created, World, transition_route, transition_reply, repository, act, acting,
  submitting, reviewing, submit_request, approve_request, reject_request,
}

-- How a row and the row that replaces it are related.
abbrev pub Change : Type 1
Change = PurchaseRequest → PurchaseRequest → Type 0

-- What submitting writes: the row awaits approval, with the time of the submission and without a
-- review, and keeps its number, its lines, its requester and what it is for.
pub record Submitted (now : ℕ) (old r : PurchaseRequest) : Type 0 where
  pub written : r ≡ submit_data now old
  pub waiting : r.status ≡ pending_approval
  pub at : r.submitted_at ≡ some now
  pub no_review_time : r.reviewed_at ≡ none
  pub no_reviewer : (r.reviewed_by_employee_id ≡ none) × (r.reviewed_by_name ≡ none)
  pub no_review_remark : r.review_remark ≡ none
  pub same_number : r.request_no ≡ old.request_no
  pub same_lines : r.lines ≡ old.lines
  pub same_requester : r.requester_name ≡ old.requester_name
  pub same_purpose : r.purpose ≡ old.purpose

abbrev pub SubmitChange : ℕ → Change
SubmitChange now old r = Submitted now old r

submit_data-Submitted : (now : ℕ) (old : PurchaseRequest) → Submitted now old (submit_data now old)
unfolding submit_data
submit_data-Submitted now old = record {
  written = refl;
  waiting = refl;
  at = refl;
  no_review_time = refl;
  no_reviewer = (refl, refl);
  no_review_remark = refl;
  same_number = refl;
  same_lines = refl;
  same_requester = refl;
  same_purpose = refl;
}

-- What a review writes: the input is the one that the body was checked to be.
abbrev pub ReviewChange : Json → Review → RequestStatus → ℕ → Change
ReviewChange body mode target now old r =
    (input : ReviewInput) × (normalize_review_input body mode ≡ ok input)
    × (r ≡ review_data target now input old)

module _ (T : Table PurchaseRequest) (A : AuditTable) (audited : Bool) (actor : Option String) where
  -- One row went from a status in which the action is allowed to the status that the action gives,
  -- no other row changed, and the trail has one more entry, which names the action and the row.
  pub record Acted (id : String) (action : RequestAction) (name : String) (Made : Change)
      (w w' : World T A audited actor) (r : PurchaseRequest) : Type 0 where
    pub old : PurchaseRequest
    pub was : T.find_unique w.0 id ≡ some old
    pub made : Made old r
    pub allowed : next_status old.status action ≡ some r.status
    pub now_there : T.find_unique w'.0 id ≡ some r
    pub others : (j : String) → ¬ (j ≡ id) → T.find_unique w'.0 j ≡ T.find_unique w.0 j
    pub trailed : A.entries w'.1 ≡ with_entry A audited (entry T A audited actor name r.id) w.1

  -- A success is such a move; any other response leaves rows and trail as they were.
  abbrev pub Effect :
      String
      → RequestAction
      → String
      → Change
      → World T A audited actor
      → Response × World T A audited actor
      → Type 0
  Effect id action name Made w (success r, w') = Acted id action name Made w w' r
  Effect id action name Made w (created r, w') = ⊥
  Effect id action name Made w (_, w') = w' ≡ w

  -- The move of the compare-and-set, with what the trail then holds.
  acted :
      (id : String) (action : RequestAction) (name : String) (Made : Change)
      (status target : RequestStatus) (data_of : PurchaseRequest → PurchaseRequest)
      (w : World T A audited actor) (r : PurchaseRequest) (s' : T.State) (a' : A.State)
      → ((o : PurchaseRequest) → (data_of o).status ≡ target)
      → ((o : PurchaseRequest) → Made o (data_of o))
      → next_status status action ≡ some target
      → Moved T id status data_of w.0 r s'
      → write_audit_log A audited w.1 (entry T A audited actor name r.id) ≡ some a'
      → Acted id action name Made w (s', a') r
  acted id action name Made status target data_of w r s' a' sets makes next m done = record {
    old = m.old;
    was = m.was;
    made = subst (Made m.old) (sym m.changed) (makes m.old);
    allowed = ground (arith, sets m.old, m.as_expected, m.changed);
    now_there = m.only id ∙ ite_self id _ _ ∙ ap some (sym m.changed);
    others = λ j ne. m.only j ∙ ite_other j id _ _ ne;
    trailed = write_audit_log-entries A audited w.1 (entry T A audited actor name r.id) a' done;
  }

  thrown :
      (id : String) (action : RequestAction) (name : String) (Made : Change)
      (w : World T A audited actor) (x : RepositoryError)
      → Effect id action name Made w (transition_reply (err (repository x)), w)
  unfolding transition_reply
  thrown id action name Made w state_conflict = refl
  thrown id action name Made w (field_conflict field) = refl
  thrown id action name Made w (database e) = refl

  transition_route-Effect :
      (id : String) (action : RequestAction) (name : String) (Made : Change)
      (status target : RequestStatus) (data_of : PurchaseRequest → PurchaseRequest)
      (w : World T A audited actor)
      → ((o : PurchaseRequest) → (data_of o).status ≡ target)
      → ((o : PurchaseRequest) → Made o (data_of o))
      → next_status status action ≡ some target
      → Effect id action name Made w
          (transition_route T A audited actor name (transition T id status data_of) w)
  unfolding transition_route
  transition_route-Effect id action name Made status target data_of w sets makes next =
      elim (transition_cases T id status data_of w.0) [
        | inl (r, s', e, m) ↦
            elim (commit_cases T A audited actor name (transition T id status data_of) w r s' e) [
              | inl (a', c, done) ↦
                  rw c (
                    acted id action name Made status target data_of w r s' a' sets makes next m
                      done)
              | inr c ↦ rw c refl
            ]
        | inr (inl (x, e)) ↦
            rw (commit-err T A audited actor name _ w x e) (thrown id action name Made w x)
        | inr (inr e) ↦ rw (commit-none T A audited actor name _ w e) refl
      ]

  act-Effect :
      (id : String) (action : RequestAction) (name : String) (Made : Change)
      (before : PurchaseRequest) (go : World T A audited actor → Response × World T A audited actor)
      (w : World T A audited actor)
      → ((target : RequestStatus)
          → next_status before.status action ≡ some target
          → Effect id action name Made w (go w))
      → Effect id action name Made w (act T A audited actor action before go w)
  unfolding act
  act-Effect id action name Made before go w h =
      elim (Option-cases (next_status before.status action)) [
        | inl e ↦ rw (e, act) refl
        | inr (target, e) ↦ rw (e, act) (h target e)
      ]

  submitting-Effect :
      (id : String) (now : ℕ) (before : PurchaseRequest) (w : World T A audited actor)
      (target : RequestStatus)
      → next_status before.status submit ≡ some target
      → Effect id submit "purchase_request.submit"
          (SubmitChange now)
          w
          (submitting T A audited actor id now before w)
  unfolding submitting submit_data
  submitting-Effect id now before w target next =
      transition_route-Effect id submit "purchase_request.submit" (SubmitChange now) before.status
        target (submit_data now) w (λ o. next_status-target before.status submit next)
        (submit_data-Submitted now) next

  reviewing-Effect :
      (id : String) (now : ℕ) (body : Json) (mode : Review) (action : RequestAction) (name : String)
      (before : PurchaseRequest) (w : World T A audited actor) (target : RequestStatus)
      → next_status before.status action ≡ some target
      → Effect id action name
          (ReviewChange body mode (transition_target action) now)
          w
          (reviewing T A audited actor id now body mode (transition_target action) name before w)
  unfolding reviewing review_data
  reviewing-Effect id now body mode action name before w target next =
      elim (Result-cases (normalize_review_input body mode)) [
        | inl (issues, bad) ↦ rw (bad, reviewing) refl
        | inr (input, good) ↦
            rw (good, reviewing)
              (transition_route-Effect id action name
                (ReviewChange body mode (transition_target action) now) before.status target
                (review_data (transition_target action) now input) w
                (λ o. next_status-target before.status action next) (λ o. (input, good, refl)) next)
      ]

  acting-Effect :
      (id : String) (action : RequestAction) (name : String) (Made : Change)
      (go : PurchaseRequest → World T A audited actor → Response × World T A audited actor)
      (configured : Bool) (read : T.State) (w : World T A audited actor)
      → ((before : PurchaseRequest) (target : RequestStatus)
          → next_status before.status action ≡ some target
          → Effect id action name Made w (go before w))
      → Effect id action name Made w (acting T A audited actor action go configured id read w)
  unfolding acting
  acting-Effect id action name Made go false read w h = refl
  acting-Effect id action name Made go true read w h = elim (Option-cases (T.find_unique read id)) [
    | inl e ↦ rw (e, acting) refl
    | inr (before, e) ↦
        rw (e, acting) (act-Effect id action name Made before (go before) w (h before))
  ]

  -- Whatever the request was when the handler read it: if submitting succeeds, then one row went
  -- from a status that allows it to pending approval, with the time of the submission, without its
  -- former review, and with its number, lines, requester and purpose as they were; no other row
  -- changed and the trail, where it is kept, has one more entry; any other response leaves the rows and the trail as they were.
  pub submit_request-Effect :
      (configured : Bool) (id : String) (now : ℕ) (read : T.State) (w : World T A audited actor)
      → Effect id submit "purchase_request.submit"
          (SubmitChange now)
          w
          (submit_request T A audited actor configured id now read w)
  unfolding submit_request
  submit_request-Effect configured id now read w =
      acting-Effect id submit "purchase_request.submit" (SubmitChange now)
        (submitting T A audited actor id now) configured read w
        (λ before target next. submitting-Effect id now before w target next)

  -- Approving: a success moved one row, the one with that id, from a status that allows it to
  -- pending purchase, with the checked review in its columns, no other row changed and the trail,
  -- where it is kept, has one more entry; any other response leaves rows and trail as they were.
  pub approve_request-Effect :
      (configured : Bool) (id : String) (now : ℕ) (body : Json) (read : T.State)
      (w : World T A audited actor)
      → Effect id approve "purchase_request.approve"
          (ReviewChange body Review.approve RequestStatus.pending_purchase now)
          w
          (approve_request T A audited actor configured id now body read w)
  unfolding approve_request
  approve_request-Effect configured id now body read w =
      acting-Effect id approve "purchase_request.approve"
        (ReviewChange body Review.approve RequestStatus.pending_purchase now) _ configured read w
        (λ before target next.
          reviewing-Effect id now body Review.approve approve "purchase_request.approve" before w
            target next)

  -- Rejecting: a success moved one row, the one with that id, from a status that allows it to
  -- rejected, with the checked review in its columns, no other row changed and the trail, where it
  -- is kept, has one more entry; any other response leaves rows and trail as they were.
  pub reject_request-Effect :
      (configured : Bool) (id : String) (now : ℕ) (body : Json) (read : T.State)
      (w : World T A audited actor)
      → Effect id reject "purchase_request.reject"
          (ReviewChange body Review.reject rejected now)
          w
          (reject_request T A audited actor configured id now body read w)
  unfolding reject_request
  reject_request-Effect configured id now body read w =
      acting-Effect id reject "purchase_request.reject"
        (ReviewChange body Review.reject rejected now) _ configured read w
        (λ before target next.
          reviewing-Effect id now body Review.reject reject "purchase_request.reject" before w
            target next)
