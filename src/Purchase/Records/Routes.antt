-- ===== src/Purchase/Records/Routes.antt =====
-- POST and PATCH of /api/purchase-records in
-- apps/api/src/modules/purchases/purchaseRoutes.ts. Creating a record for a request reads the
-- request before the transaction (`read`) and marks it inside.
pub mod Effects
pub mod Requests
use company_erp.Base.{
  String, Bool, true, false, Option, none, some, List, [], ◌∷◌, Result, ok, err, is_empty, Field,
  absent, cleared, given, if◌then◌else◌,
}
use company_erp.Base.Json.{Json}
use company_erp.Database.{Table}
use company_erp.Audit.{AuditTable, AuditEntry, write_audit_log, run_in_transaction}
use company_erp.Purchase.Data.{PurchaseRequest, RecordInput}
use company_erp.Purchase.Input.RequestLines.{Mode, create, update}
use company_erp.Purchase.Repository.{
  RepositoryError, state_conflict, field_conflict, database, is_purchasable, mark_purchasing,
}
use company_erp.Purchase.Handlers.{Thrown, repository, audit_write}
use company_erp.Purchase.Records.Input.{normalize_record_input}
use company_erp.Purchase.Records.Repository.{PurchaseRecord, create_record, update_record}

pub data Response : Type 0 where
  success created : PurchaseRecord → Response
  bad_request : List String → Response
  not_found unavailable requests_unavailable server_error : Response
  conflict : String → Response

unfoldable pub create_reply : Result Thrown PurchaseRecord → Response
create_reply (ok r) = created r
create_reply (err (repository (field_conflict field))) = conflict field
create_reply (err (repository state_conflict)) = server_error
create_reply (err (repository (database e))) = server_error
create_reply (err audit_write) = server_error

unfoldable pub update_reply : Result Thrown (Option PurchaseRecord) → Response
update_reply (ok (some r)) = success r
update_reply (ok none) = not_found
update_reply (err (repository (field_conflict field))) = conflict field
update_reply (err (repository state_conflict)) = server_error
update_reply (err (repository (database e))) = server_error
update_reply (err audit_write) = server_error

-- `if (input.purchaseRequestId)`
abbrev pub named_request : RecordInput → Option String
named_request input = elim input.purchase_request_id [
  | absent ↦ none
  | cleared ↦ none
  | given s ↦ if is_empty s then none else some s
]

module _ (P : Table PurchaseRecord) (T : Table PurchaseRequest) (A : AuditTable) (audited : Bool)
    (actor : Option String) where
  -- Records, requests and trail.
  abbrev pub World : Type 0
  World = P.State × T.State × A.State

  abbrev pub entry : String → String → AuditEntry
  entry action id = record {
    actor_user_id = actor;
    action = action;
    entity_type = "purchase_record";
    entity_id = some id;
  }

  -- The request that a record is for is being purchased.
  abbrev pub mark_named : Option String → T.State → Result RepositoryError T.State
  mark_named none s = ok s
  mark_named (some id) s = mark_purchasing T id s

  unfoldable pub logged_create : RecordInput → World → Result Thrown (PurchaseRecord × World)
  logged_create input (records, requests, audit) = elim (create_record P input records) [
    | err e ↦ err (repository e)
    | ok (r, records') ↦ elim (mark_named (named_request input) requests) [
      | err e ↦ err (repository e)
      | ok requests' ↦
          elim (write_audit_log A audited audit (entry "purchase_record.create" r.id)) [
            | none ↦ err audit_write
            | some audit' ↦ ok (r, (records', requests', audit'))
          ]
    ]
  ]

  unfoldable pub recording : RecordInput → World → Response × World
  unfolding logged_create
  recording input w =
      let (r, w') = run_in_transaction (logged_create input) w in (create_reply r, w')

  abbrev unapproved : Response
  unapproved = bad_request ("purchaseRequestId must reference an approved request" ∷ [])

  -- The checks of the request that a record is for, then the transaction.
  unfoldable pub recording_for :
      Option String → Bool → RecordInput → T.State → World → Response × World
  unfolding recording
  recording_for none has_requests input read w = recording input w
  recording_for (some id) false input read w = (requests_unavailable, w)
  recording_for (some id) true input read w = elim (T.find_unique read id) [
    | none ↦ (unapproved, w)
    | some request ↦ elim (is_purchasable request.status) [
      | true ↦ recording input w
      | false ↦ (unapproved, w)
    ]
  ]

  -- POST /api/purchase-records
  unfoldable pub post_record : Bool → Bool → Json → T.State → World → Response × World
  unfolding recording_for
  post_record false has_requests body read w = (unavailable, w)
  post_record true has_requests body read w = elim (normalize_record_input body create) [
    | err issues ↦ (bad_request issues, w)
    | ok input ↦ recording_for (named_request input) has_requests input read w
  ]

  unfoldable pub logged_update :
      String → RecordInput → World → Result Thrown (Option PurchaseRecord × World)
  logged_update id input (records, requests, audit) = elim (update_record P id input records) [
    | err e ↦ err (repository e)
    | ok (none, records') ↦ ok (none, (records', requests, audit))
    | ok (some r, records') ↦
        elim (write_audit_log A audited audit (entry "purchase_record.update" r.id)) [
          | none ↦ err audit_write
          | some audit' ↦ ok (some r, (records', requests, audit'))
        ]
  ]

  -- PATCH /api/purchase-records/:id
  unfoldable pub patch_record : Bool → String → Json → World → Response × World
  unfolding logged_update
  patch_record false id body w = (unavailable, w)
  patch_record true id body w = elim (normalize_record_input body update) [
    | err issues ↦ (bad_request issues, w)
    | ok input ↦ let (r, w') = run_in_transaction (logged_update id input) w in (update_reply r, w')
  ]
