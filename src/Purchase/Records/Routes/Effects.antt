-- ===== src/Purchase/Records/Routes/Effects.antt =====
-- What creating and patching a purchase record has done, by the response.
use company_erp.Base.{
  ◌≡◌, refl, List, is_empty, absent, cleared, given, ◌∙◌, ◌⊎◌, inl, inr, String, Bool, true, false,
  Option, none, some, ok, err, ite_self, ite_other, Option-cases, Result-cases, Bool-cases,
}
use company_erp.Base.Json.{Json}
use company_erp.Database.{Table}
use company_erp.Audit.{
  AuditTable, write_audit_log, write_audit_log-entries, with_entry, run_in_transaction,
}
use company_erp.Purchase.Status.{RecordStatus, SourceType}
use company_erp.Purchase.Data.{PurchaseRequest, RecordInput, RecordLine}
use company_erp.Purchase.Input.RequestLines.{create, update}
use company_erp.Purchase.Repository.{
  RepositoryError, state_conflict, field_conflict, database, is_purchasable,
}
use company_erp.Purchase.Handlers.{repository}
use company_erp.Purchase.Records.Input.{normalize_record_input}
use company_erp.Purchase.Records.Repository.{
  PurchaseRecord, create_record, record_create_data, record_update_data, map_record_conflict,
}
use company_erp.Purchase.Records.Routes.{
  Response, success, created, create_reply, named_request, World, entry, mark_named, logged_create,
  recording, recording_for, post_record,
}

module _ (P : Table PurchaseRecord) (T : Table PurchaseRequest) (A : AuditTable) (audited : Bool)
    (actor : Option String) where
  -- The request that a record names was there and could be purchased, when the handler read it.
  abbrev pub Purchasable : Option String → T.State → Type 0
  Purchasable none read = Unit
  Purchasable (some id) read =
      (q : PurchaseRequest) × (T.find_unique read id ≡ some q) × (is_purchasable q.status ≡ true)

  -- A record that was not there holds what the checked body says, and the request that it names is
  -- marked as being purchased.
  pub record Created (body : Json) (read : T.State) (w w' : World P T A audited actor)
      (r : PurchaseRecord) : Type 0 where
    pub input : RecordInput
    pub checked : normalize_record_input body create ≡ ok input
    pub id : String
    pub fresh : P.find_unique w.0 id ≡ none
    pub made : r ≡ record_create_data input id
    pub now_there : P.find_unique w'.0 id ≡ some r
    pub others : (j : String) → ¬ (j ≡ id) → P.find_unique w'.0 j ≡ P.find_unique w.0 j
    pub approved : Purchasable (named_request input) read
    pub marked : mark_named P T A audited actor (named_request input) w.1 ≡ ok w'.1
    pub trailed :
        A.entries w'.2
        ≡ with_entry A audited (entry P T A audited actor "purchase_record.create" r.id) w.2

  abbrev pub RecordEffect :
      Json → T.State → World P T A audited actor → Response × World P T A audited actor → Type 0
  RecordEffect body read w (created r, w') = Created body read w w' r
  RecordEffect body read w (success r, w') = ⊥
  RecordEffect body read w (_, w') = w' ≡ w

  recording_refused :
      (body : Json) (read : T.State) (input : RecordInput) (w : World P T A audited actor)
      (e : RepositoryError)
      → create_record P input w.0 ≡ err e
      → RecordEffect body read w (recording P T A audited actor input w)
  unfolding recording logged_create run_in_transaction create_reply
  recording_refused body read input w state_conflict h =
      rw (h, recording, logged_create, run_in_transaction) refl
  recording_refused body read input w (field_conflict f) h =
      rw (h, recording, logged_create, run_in_transaction) refl
  recording_refused body read input w (database e) h =
      rw (h, recording, logged_create, run_in_transaction) refl

  create_reply_err :
      (body : Json) (read : T.State) (w : World P T A audited actor) (e : RepositoryError)
      → RecordEffect body read w (create_reply (err (repository e)), w)
  unfolding create_reply
  create_reply_err body read w state_conflict = refl
  create_reply_err body read w (field_conflict field) = refl
  create_reply_err body read w (database e) = refl

  create_record_cases :
      (input : RecordInput) (s : P.State)
      → ((id : String) × (s' : P.State) × (create_record P input s
            ≡ ok (record_create_data input id, s'))
          × (P.create s (record_create_data input) ≡ ok (id, s')))
        ⊎ ((e : RepositoryError) × (create_record P input s ≡ err e))
  unfolding create_record
  create_record_cases input s = elim (Result-cases (P.create s (record_create_data input))) [
    | inl (e, failed) ↦ inr (map_record_conflict e, rw (failed, create_record) refl)
    | inr ((id, s'), done) ↦ inl (id, s', rw (done, create_record) refl, done)
  ]

  recording-Effect :
      (body : Json) (read : T.State) (input : RecordInput) (w : World P T A audited actor)
      → normalize_record_input body create ≡ ok input
      → Purchasable (named_request input) read
      → RecordEffect body read w (recording P T A audited actor input w)
  unfolding recording logged_create run_in_transaction create_reply
  recording-Effect body read input w good approved = elim (create_record_cases input w.0) [
    | inr (e, h) ↦ recording_refused body read input w e h
    | inl (id, s', h, done) ↦
        let note =
          entry P T A audited actor "purchase_record.create" (record_create_data input id).id in
        elim (Result-cases (mark_named P T A audited actor (named_request input) w.1)) [
          | inl (x, unmarked) ↦
              rw (h, recording, logged_create, run_in_transaction, unmarked)
                (create_reply_err body read w x)
          | inr (t', marked) ↦ elim (Option-cases (write_audit_log A audited w.2 note)) [
            | inl failed ↦ rw (h, recording, logged_create, run_in_transaction, marked, failed) refl
            | inr (a', logged) ↦
                rw (h, recording, logged_create, run_in_transaction, marked, logged)
                  (record {
                    input = input;
                    checked = good;
                    id = id;
                    fresh = P.create_fresh w.0 _ id s' done;
                    made = refl;
                    now_there = P.find-create w.0 _ id s' done id ∙ ite_self id _ _;
                    others = λ j ne. P.find-create w.0 _ id s' done j ∙ ite_other j id _ _ ne;
                    approved = approved;
                    marked = marked;
                    trailed = write_audit_log-entries A audited w.2 note a' logged;
                  })
          ]
        ]
  ]

  recording_for-Effect :
      (body : Json) (o : Option String) (has_requests : Bool) (read : T.State) (input : RecordInput)
      (w : World P T A audited actor)
      → normalize_record_input body create ≡ ok input
      → named_request input ≡ o
      → RecordEffect body read w (recording_for P T A audited actor o has_requests input read w)
  unfolding recording_for
  recording_for-Effect body none has_requests read input w good named =
      recording-Effect body read input w good (rw named tt)
  recording_for-Effect body (some id) false read input w good named = refl
  recording_for-Effect body (some id) true read input w good named =
      elim (Option-cases (T.find_unique read id)) [
        | inl missing ↦ rw (missing, recording_for) refl
        | inr (q, there) ↦ elim (Bool-cases (is_purchasable q.status)) [
          | inl yes_it_is ↦
              rw (there, recording_for, yes_it_is)
                (recording-Effect body read input w good (rw named (q, there, yes_it_is)))
          | inr no_longer ↦ rw (there, recording_for, no_longer) refl
        ]
      ]

  pub post_record-Effect :
      (configured has_requests : Bool) (body : Json) (read : T.State)
      (w : World P T A audited actor)
      → RecordEffect body read w
          (post_record P T A audited actor configured has_requests body read w)
  unfolding post_record
  post_record-Effect false has_requests body read w = refl
  post_record-Effect true has_requests body read w =
      elim (Result-cases (normalize_record_input body create)) [
        | inl (issues, bad) ↦ rw (bad, post_record) refl
        | inr (input, good) ↦
            rw (good, post_record)
              (recording_for-Effect body (named_request input) has_requests read input w good refl)
      ]

  -- The columns of the row that was there: each takes what the checked body gives, and stays where
  -- the body says nothing of it. An empty id of another table unlinks.
  pub record Merged (input : RecordInput) (old r : PurchaseRecord) : Type 0 where
    pub written : r ≡ record_update_data input old
    pub same_id : r.id ≡ old.id
    pub lines_given : (ls : List RecordLine) → input.lines ≡ some ls → r.lines ≡ ls
    pub lines_kept : input.lines ≡ none → r.lines ≡ old.lines
    pub status_given : (s : RecordStatus) → input.status ≡ some s → r.status ≡ s
    pub status_kept : input.status ≡ none → r.status ≡ old.status
    pub source_given : (s : SourceType) → input.source_type ≡ some s → r.source_type ≡ s
    pub source_kept : input.source_type ≡ none → r.source_type ≡ old.source_type
    pub number_kept : input.purchase_no ≡ none → r.purchase_no ≡ old.purchase_no
    pub remark_given : (s : String) → input.remark ≡ given s → r.remark ≡ some s
    pub remark_cleared : input.remark ≡ cleared → r.remark ≡ none
    pub remark_kept : input.remark ≡ absent → r.remark ≡ old.remark
    pub request_kept :
        input.purchase_request_id ≡ absent → r.purchase_request_id ≡ old.purchase_request_id
    pub request_linked :
        (s : String)
        → input.purchase_request_id ≡ given s
        → is_empty s ≡ false
        → r.purchase_request_id ≡ some s
    pub request_unlinked :
        (s : String)
        → input.purchase_request_id ≡ given s
        → is_empty s ≡ true
        → r.purchase_request_id ≡ none
    pub supplier_kept :
        input.supplier_party_id ≡ absent → r.supplier_party_id ≡ old.supplier_party_id

  -- The row that was there is changed as the checked body says; no other row and no request is.
  pub record Patched (id : String) (body : Json) (w w' : World P T A audited actor)
      (r : PurchaseRecord) : Type 0 where
    pub input : RecordInput
    pub checked : normalize_record_input body update ≡ ok input
    pub old : PurchaseRecord
    pub was : P.find_unique w.0 id ≡ some old
    pub made : Merged input old r
    pub now_there : P.find_unique w'.0 id ≡ some r
    pub others : (j : String) → ¬ (j ≡ id) → P.find_unique w'.0 j ≡ P.find_unique w.0 j
    pub requests : w'.1 ≡ w.1
    pub trailed :
        A.entries w'.2
        ≡ with_entry A audited (entry P T A audited actor "purchase_record.update" r.id) w.2

  abbrev pub PatchEffect :
      String → Json → World P T A audited actor → Response × World P T A audited actor → Type 0
  PatchEffect id body w (success r, w') = Patched id body w w' r
  PatchEffect id body w (created r, w') = ⊥
  PatchEffect id body w (_, w') = w' ≡ w
