-- ===== src/Replenishment/Routes.antt =====
-- PATCH /api/replenishment-suggestions/:id and POST .../convert-to-purchase-request of
-- apps/api/src/modules/inventory/inventoryRoutes.ts. Both write their audit entry after the change,
-- outside its transaction.
pub mod Effects
use company_erp.Base.{String, Bool, true, false, Option, none, some, List, [], ◌∷◌, Result, ok, err}
use company_erp.Base.Json.{Json}
use company_erp.Database.{Table}
use company_erp.Audit.{AuditTable, AuditEntry, write_audit_log}
use company_erp.Purchase.Data.{PurchaseRequest}
use company_erp.Replenishment.Input.{normalize_update_input, normalize_convert_input}
use company_erp.Replenishment.Suggestions.{
  Suggestion, SuggestionError, database, already_converted, open_duplicate, request_no,
  update_suggestion, convert_to_purchase_request,
}

pub data Response : Type 0 where
  success : Suggestion → Response
  created : Suggestion → PurchaseRequest → Response
  bad_request : List String → Response
  not_found unavailable server_error : Response
  conflict : SuggestionError → Response

-- The conversion route answers 409 for a conflict, and 500 for what else was thrown.
unfoldable pub error_reply : SuggestionError → Response
error_reply (database e) = server_error
error_reply e = conflict e

module _ (S : Table Suggestion) (T : Table PurchaseRequest) (A : AuditTable) (audited : Bool)
    (actor : Option String) where
  -- Suggestions and requests, and the trail.
  abbrev pub World : Type 0
  World = (S.State × T.State) × A.State

  abbrev pub entry : String → String → AuditEntry
  entry action id = record {
    actor_user_id = actor;
    action = action;
    entity_type = "replenishment_suggestion";
    entity_id = some id;
  }

  -- The audit entry of a conversion that was made, and the reply.
  unfoldable pub converted_reply : Suggestion → PurchaseRequest → World → Response × World
  converted_reply r q (w, audit) =
      elim (write_audit_log A audited audit
        (entry "replenishment_suggestion.convert_to_purchase_request" r.id)) [
          | none ↦ (server_error, (w, audit))
          | some audit' ↦ (created r q, (w, audit'))
        ]

  unfoldable pub conversion_reply :
      Result SuggestionError (Option (Suggestion × PurchaseRequest)) × (S.State × T.State)
      → A.State
      → Response × World
  unfolding converted_reply error_reply
  conversion_reply (ok (some (r, q)), w) audit = converted_reply r q (w, audit)
  conversion_reply (ok none, w) audit = (not_found, (w, audit))
  conversion_reply (err e, w) audit = (error_reply e, (w, audit))

  -- POST /api/replenishment-suggestions/:id/convert-to-purchase-request
  unfoldable pub post_conversion : Bool → String → Json → World → Response × World
  unfolding conversion_reply
  post_conversion false id body w = (unavailable, w)
  post_conversion true id body (w, audit) = elim (normalize_convert_input body) [
    | err issues ↦ (bad_request issues, (w, audit))
    | ok input ↦ conversion_reply (convert_to_purchase_request S T id input w) audit
  ]

  unfoldable pub updated_reply : Suggestion → World → Response × World
  updated_reply r (w, audit) =
      elim (write_audit_log A audited audit (entry "replenishment_suggestion.update" r.id)) [
        | none ↦ (server_error, (w, audit))
        | some audit' ↦ (success r, (w, audit'))
      ]

  -- PATCH /api/replenishment-suggestions/:id, which catches no conflict.
  unfoldable pub patch_suggestion : Bool → String → Json → World → Response × World
  unfolding updated_reply
  patch_suggestion false id body w = (unavailable, w)
  patch_suggestion true id body ((s, t), audit) = elim (normalize_update_input body) [
    | err issues ↦ (bad_request issues, ((s, t), audit))
    | ok input ↦ elim (update_suggestion S id input s) [
      | err e ↦ (server_error, ((s, t), audit))
      | ok (none, s') ↦ (not_found, ((s', t), audit))
      | ok (some r, s') ↦ updated_reply r ((s', t), audit)
    ]
  ]
