-- ===== src/Purchase/Handlers/Edits.antt =====
-- What creating and patching a purchase request has done, by the response.
use company_erp.Base.{
  ◌≡◌, refl, ◌⊎◌, inl, inr, String, Bool, true, false, Option, none, some, ok, err, ite_self,
  ite_other, Result-cases, ◌∙◌,
}
use company_erp.Base.Json.{Json}
use company_erp.Database.{Table, record_not_found, updated_row}
use company_erp.Audit.{with_entry, AuditTable, write_audit_log-entries}
use company_erp.Purchase.Data.{PurchaseRequest, RequestInput}
use company_erp.Purchase.Input.{normalize_request_input}
use company_erp.Purchase.Input.RequestLines.{create, update}
use company_erp.Purchase.Repository.{
  RepositoryError, state_conflict, field_conflict, database, create_request, update_request,
  request_create_data, request_update_data, map_request_conflict,
}
use company_erp.Purchase.Handlers.{
  Response, repository, success, created, World, created_row, create_reply, update_reply,
  post_request, patch_request,
}
use company_erp.Purchase.Handlers.Commit.{entry, commit_cases, commit-err, commit-none}

module _ (T : Table PurchaseRequest) (A : AuditTable) (audited : Bool) (actor : Option String) where
  -- A row that was not there holds what the checked body says; no other row changed.
  pub record Created (body : Json) (w w' : World T A audited actor) (r : PurchaseRequest)
      : Type 0 where
    pub input : RequestInput
    pub checked : normalize_request_input body create ≡ ok input
    pub id : String
    pub fresh : T.find_unique w.0 id ≡ none
    pub made : r ≡ request_create_data input id
    pub now_there : T.find_unique w'.0 id ≡ some r
    pub others : (j : String) → ¬ (j ≡ id) → T.find_unique w'.0 j ≡ T.find_unique w.0 j
    pub trailed :
        A.entries w'.1
        ≡ with_entry A audited (entry T A audited actor "purchase_request.create" r.id) w.1

  abbrev pub PostEffect :
      Json → World T A audited actor → Response × World T A audited actor → Type 0
  PostEffect body w (created r, w') = Created body w w' r
  PostEffect body w (success r, w') = ⊥
  PostEffect body w (_, w') = w' ≡ w

  created_row_cases :
      (input : RequestInput) (s : T.State)
      → ((id : String) × (s' : T.State) × (created_row T A audited actor input s
            ≡ ok (some (request_create_data input id), s'))
          × (T.create s (request_create_data input) ≡ ok (id, s')))
        ⊎ ((e : RepositoryError) × (created_row T A audited actor input s ≡ err e))
  unfolding created_row create_request
  created_row_cases input s = elim (Result-cases (T.create s (request_create_data input))) [
    | inl (e, failed) ↦ inr (map_request_conflict e, rw (failed, create_request, created_row))
    | inr ((id, s'), done) ↦ inl (id, s', rw (done, create_request, created_row), done)
  ]

  create_reply_err :
      (body : Json) (w : World T A audited actor) (e : RepositoryError)
      → PostEffect body w (create_reply (err (repository e)), w)
  unfolding create_reply
  create_reply_err body w state_conflict = refl
  create_reply_err body w (field_conflict field) = refl
  create_reply_err body w (database e) = refl

  pub post_request-Effect :
      (configured : Bool) (body : Json) (w : World T A audited actor)
      → PostEffect body w (post_request T A audited actor configured body w)
  unfolding post_request create_reply
  post_request-Effect false body w = refl
  post_request-Effect true body w = elim (Result-cases (normalize_request_input body create)) [
    | inl (issues, bad) ↦ rw (bad, post_request) refl
    | inr (input, good) ↦ elim (created_row_cases input w.0) [
      | inr (e, failed) ↦
          rw
            (
              good,
              post_request,
              commit-err T A audited actor "purchase_request.create" _ w e failed,
            )
            (create_reply_err body w e)
      | inl (id, s', e, done) ↦
          let r = request_create_data input id in
          elim (commit_cases T A audited actor "purchase_request.create"
            (created_row T A audited actor input) w r s' e) [
              | inl (a', c, logged) ↦
                  rw (good, post_request, c)
                    (record {
                      input = input;
                      checked = good;
                      id = id;
                      fresh = T.create_fresh w.0 _ id s' done;
                      made = refl;
                      now_there = T.find-create w.0 _ id s' done id ∙ ite_self id _ _;
                      others = λ j ne. T.find-create w.0 _ id s' done j ∙ ite_other j id _ _ ne;
                      trailed = write_audit_log-entries A audited w.1 _ a' logged;
                    })
              | inr c ↦ rw (good, post_request, c) refl
            ]
    ]
  ]

  -- The row that was there is changed as the checked body says; no other row changed.
  pub record Patched (id : String) (body : Json) (w w' : World T A audited actor)
      (r : PurchaseRequest) : Type 0 where
    pub input : RequestInput
    pub checked : normalize_request_input body update ≡ ok input
    pub old : PurchaseRequest
    pub was : T.find_unique w.0 id ≡ some old
    pub made : r ≡ request_update_data input old
    pub now_there : T.find_unique w'.0 id ≡ some r
    pub others : (j : String) → ¬ (j ≡ id) → T.find_unique w'.0 j ≡ T.find_unique w.0 j
    pub trailed :
        A.entries w'.1
        ≡ with_entry A audited (entry T A audited actor "purchase_request.update" r.id) w.1

  abbrev pub PatchEffect :
      String → Json → World T A audited actor → Response × World T A audited actor → Type 0
  PatchEffect id body w (success r, w') = Patched id body w w' r
  PatchEffect id body w (created r, w') = ⊥
  PatchEffect id body w (_, w') = w' ≡ w

  update_cases :
      (id : String) (input : RequestInput) (s : T.State)
      → ((r : PurchaseRequest) × (s' : T.State) × (update_request T id input s ≡ ok (some r, s'))
          × (T.update s id (request_update_data input) ≡ ok (r, s')))
        ⊎ ((e : RepositoryError) × (update_request T id input s ≡ err e))
        ⊎ (update_request T id input s ≡ ok (none, s))
  unfolding update_request
  update_cases id input s = elim (Result-cases (T.update s id (request_update_data input))) [
    | inl (record_not_found, failed) ↦ inr (inr (rw (failed, update_request)))
    | inl (e, failed) ↦ inr (inl (map_request_conflict e, rw (failed, update_request)))
    | inr ((r, s'), done) ↦ inl (r, s', rw (done, update_request), done)
  ]

  update_reply_err :
      (id : String) (body : Json) (w : World T A audited actor) (e : RepositoryError)
      → PatchEffect id body w (update_reply (err (repository e)), w)
  unfolding update_reply
  update_reply_err id body w state_conflict = refl
  update_reply_err id body w (field_conflict field) = refl
  update_reply_err id body w (database e) = refl

  pub patch_request-Effect :
      (configured : Bool) (id : String) (body : Json) (w : World T A audited actor)
      → PatchEffect id body w (patch_request T A audited actor configured id body w)
  unfolding patch_request update_reply
  patch_request-Effect false id body w = refl
  patch_request-Effect true id body w = elim (Result-cases (normalize_request_input body update)) [
    | inl (issues, bad) ↦ rw (bad, patch_request) refl
    | inr (input, good) ↦ elim (update_cases id input w.0) [
      | inr (inl (e, failed)) ↦
          rw
            (
              good,
              patch_request,
              commit-err T A audited actor "purchase_request.update" _ w e failed,
            )
            (update_reply_err id body w e)
      | inr (inr missing) ↦
          rw
            (
              good,
              patch_request,
              commit-none T A audited actor "purchase_request.update" _ w missing,
            )
            refl
      | inl (r, s', e, done) ↦
          let (old, was, made) = updated_row T w.0 id (request_update_data input) r s' done in
          elim (commit_cases T A audited actor "purchase_request.update" (update_request T id input)
            w r s' e) [
              | inl (a', c, logged) ↦
                  rw (good, patch_request, c)
                    (record {
                      input = input;
                      checked = good;
                      old = old;
                      was = was;
                      made = made;
                      now_there = T.find-update w.0 id _ r s' done id ∙ ite_self id _ _;
                      others = λ j ne. T.find-update w.0 id _ r s' done j ∙ ite_other j id _ _ ne;
                      trailed = write_audit_log-entries A audited w.1 _ a' logged;
                    })
              | inr c ↦ rw (good, patch_request, c) refl
            ]
    ]
  ]
