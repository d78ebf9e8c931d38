-- ===== src/Purchase/Handlers.antt =====
-- The routes of apps/api/src/modules/purchases/purchaseRoutes.ts that change a purchase request.
-- A handler awaits between its first read and its transaction, and other requests run there: the
-- state that it read (`read`) and the one that its transaction meets are two arguments.
pub mod Commit
pub mod Effects
pub mod Edits
pub mod Invariant
pub mod Races
pub mod Progress
use company_erp.Base.{
  ℕ, String, Bool, true, false, Option, none, some, List, [], ◌∷◌, Result, ok, err,
}
use company_erp.Base.Json.{Json}
use company_erp.Database.{Table}
use company_erp.Audit.{AuditTable, AuditEntry, write_audit_log, run_in_transaction}
use company_erp.Purchase.Status.{
  RequestStatus, RequestAction, submit, approve, reject, allowed_actions, next_status, rejected,
}
use company_erp.Purchase.Data.{PurchaseRequest, RequestInput, ReviewInput}
use company_erp.Purchase.Input.{Review, normalize_request_input, normalize_review_input}
use company_erp.Purchase.Input.RequestLines.{Mode, create, update}
use company_erp.Purchase.Repository.{
  RepositoryError, state_conflict, field_conflict, database, create_request, update_request,
  transition, submit_data, review_data,
}

-- `purchaseRequestStateConflictPayload`: the status, the action and the allowed actions, where
-- they are known.
pub data Response : Type 0 where
  success created : PurchaseRequest → Response
  bad_request : List String → Response
  not_found unavailable server_error : Response
  not_allowed : RequestStatus → RequestAction → List RequestAction → Response
  raced : Response
  conflict : String → Response

-- What leaves the callback of a transaction.
pub data Thrown : Type 0 where
  repository : RepositoryError → Thrown
  audit_write : Thrown

transition_reply : Result Thrown (Option PurchaseRequest) → Response
transition_reply (ok (some r)) = success r
transition_reply (ok none) = not_found
transition_reply (err (repository state_conflict)) = raced
transition_reply (err _) = server_error

update_reply : Result Thrown (Option PurchaseRequest) → Response
update_reply (ok (some r)) = success r
update_reply (ok none) = not_found
update_reply (err (repository (field_conflict field))) = conflict field
update_reply (err _) = server_error

create_reply : Result Thrown (Option PurchaseRequest) → Response
create_reply (ok (some r)) = created r
create_reply (ok none) = server_error
create_reply (err (repository (field_conflict field))) = conflict field
create_reply (err _) = server_error

module _ (T : Table PurchaseRequest) (A : AuditTable) (audited : Bool) (actor : Option String) where
  -- The tables that a transaction of these routes touches.
  abbrev pub World : Type 0
  World = T.State × A.State

  -- The callback: the repository's call, and the entry for what it changed.
  logged :
      String
      → (T.State → Result RepositoryError (Option PurchaseRequest × T.State))
      → World
      → Result Thrown (Option PurchaseRequest × World)
  unfolding write_audit_log
  logged action call (requests, audit) = elim (call requests) [
    | err e ↦ err (repository e)
    | ok (none, requests') ↦ ok (none, (requests', audit))
    | ok (some r, requests') ↦
        elim (write_audit_log A audited audit (record {
          actor_user_id = actor;
          action = action;
          entity_type = "purchase_request";
          entity_id = some r.id;
        })) [ none ↦ err audit_write | some audit' ↦ ok (some r, (requests', audit')) ]
  ]

  pub commit :
      String
      → (T.State → Result RepositoryError (Option PurchaseRequest × T.State))
      → World
      → Result Thrown (Option PurchaseRequest) × World
  unfolding logged run_in_transaction
  commit action call = run_in_transaction (logged action call)

  transition_route :
      String
      → (T.State → Result RepositoryError (Option PurchaseRequest × T.State))
      → World
      → Response × World
  unfolding commit transition_reply
  transition_route action call w = let (r, w') = commit action call w in (transition_reply r, w')

  -- What the three action routes do once the request was read.
  act : RequestAction → PurchaseRequest → (World → Response × World) → World → Response × World
  act action before go w = elim (next_status before.status action) [
    | none ↦ (not_allowed before.status action (allowed_actions before.status), w)
    | some _ ↦ go w
  ]

  -- The transaction of the submit route, on the request as it was read.
  submitting : String → ℕ → PurchaseRequest → World → Response × World
  unfolding transition_route
  submitting id now before =
      transition_route "purchase_request.submit" (transition T id before.status (submit_data now))

  -- The check of the body and the transaction of the two review routes.
  reviewing :
      String
      → ℕ
      → Json
      → Review
      → RequestStatus
      → String
      → PurchaseRequest
      → World
      → Response × World
  unfolding transition_route
  reviewing id now body mode target name before w = elim (normalize_review_input body mode) [
    | err issues ↦ (bad_request issues, w)
    | ok input ↦
        transition_route name (transition T id before.status (review_data target now input)) w
  ]

  -- The routes' first steps: the repository is there, the request is there, and its status allows
  -- the action.
  acting :
      RequestAction
      → (PurchaseRequest → World → Response × World)
      → Bool
      → String
      → T.State
      → World
      → Response × World
  unfolding act
  acting action go false id read w = (unavailable, w)
  acting action go true id read w = elim (T.find_unique read id) [
    | none ↦ (not_found, w)
    | some before ↦ act action before (go before) w
  ]

  -- POST /api/purchase-requests/:id/submit
  unfoldable pub submit_request : Bool → String → ℕ → T.State → World → Response × World
  unfolding acting submitting
  submit_request configured id now = acting submit (submitting id now) configured id

  -- POST /api/purchase-requests/:id/approve
  unfoldable pub approve_request : Bool → String → ℕ → Json → T.State → World → Response × World
  unfolding acting reviewing
  approve_request configured id now body =
      acting approve
        (reviewing id now body Review.approve RequestStatus.pending_purchase
          "purchase_request.approve")
        configured id

  -- POST /api/purchase-requests/:id/reject
  unfoldable pub reject_request : Bool → String → ℕ → Json → T.State → World → Response × World
  unfolding acting reviewing
  reject_request configured id now body =
      acting reject (reviewing id now body Review.reject rejected "purchase_request.reject")
        configured id

  -- The created row, which is never `null`.
  created_row : RequestInput → T.State → Result RepositoryError (Option PurchaseRequest × T.State)
  created_row input s = elim (create_request T input s) [
    | ok (r, s') ↦ ok (some r, s')
    | err e ↦ err e
  ]

  -- POST /api/purchase-requests
  unfoldable pub post_request : Bool → Json → World → Response × World
  unfolding commit create_reply created_row
  post_request configured body w = elim configured [
    | false ↦ (unavailable, w)
    | true ↦ elim (normalize_request_input body create) [
      | err issues ↦ (bad_request issues, w)
      | ok input ↦
          let (r, w') = commit "purchase_request.create" (created_row input) w in
          (create_reply r, w')
    ]
  ]

  -- PATCH /api/purchase-requests/:id
  unfoldable pub patch_request : Bool → String → Json → World → Response × World
  unfolding commit update_reply
  patch_request configured id body w = elim configured [
    | false ↦ (unavailable, w)
    | true ↦ elim (normalize_request_input body update) [
      | err issues ↦ (bad_request issues, w)
      | ok input ↦
          let (r, w') = commit "purchase_request.update" (update_request T id input) w in
          (update_reply r, w')
    ]
  ]
