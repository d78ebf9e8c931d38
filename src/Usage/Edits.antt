-- ===== src/Usage/Edits.antt =====
-- POST and PATCH of /api/project-usage-requests in
-- apps/api/src/modules/projectSites/projectSiteRoutes.ts. A reply shows the request; which of its
-- charge columns a caller sees is not modelled.
pub mod Effects
pub mod Changes
use company_erp.Base.{
  String, Bool, true, false, Option, none, some, or_else, List, [], ◌∷◌, Field, absent, cleared,
  given, Result, ok, err, if◌then◌else◌,
}
use company_erp.Base.Json.{Json, Properties, obj, property, end, str}
use company_erp.Database.{Table}
use company_erp.Audit.{AuditTable, AuditEntry, write_audit_log}
use company_erp.Purchase.Input.RequestLines.{Mode, create, update}
use company_erp.Replenishment.Open.{UsageStatus, pending, rejected}
use company_erp.Usage.Types.{UsageRequest, UsageInput}
use company_erp.Usage.Scope.{
  Caller, scoped_project_site_ids, external_project_site_ids, is_outside_scope,
}
use company_erp.Usage.Input.{normalize_usage_input}
use company_erp.Usage.Issue.{UsageError}
use company_erp.Usage.Requests.{create_usage, update_usage}
use company_erp.Usage.Routes.{
  Response, created, success, bad_request, field_conflict, not_found, forbidden, unavailable,
  server_error, Thrown, repository, thrown_reply,
}

-- The body with the site and the status set: `{ ...body, projectSiteId, status: "pending" }`.
unfoldable pub external_body : String → Json → Json
external_body site (obj ps) =
    obj (property "projectSiteId" (str site) (property "status" (str "pending") ps))
external_body site _ =
    obj (property "projectSiteId" (str site) (property "status" (str "pending") end))

-- `value ?? null`, as a property that is given.
abbrev pub given_or_null : Option String → Field String
given_or_null none = cleared
given_or_null (some s) = given s

-- `a ?? b`
abbrev pub first_of : Option String → Option String → Option String
first_of none b = b
first_of (some a) b = some a

-- What an external caller submits, in the caller's name.
unfoldable pub external_input : Caller → String → UsageInput → UsageInput
external_input user site input = record input {
  project_site_id = some site;
  status = some pending;
  submitted_by_account_id = given user.id;
  submitted_by_name_snapshot = given_or_null (first_of user.contact_name user.employee_name);
  submitted_by_phone_snapshot = given_or_null user.contact_phone;
}

-- `scope !== null && input.status && input.status !== "pending"`
abbrev pub sets_status : Option (List String) → Option UsageStatus → Bool
sets_status none status = false
sets_status (some ids) none = false
sets_status (some ids) (some UsageStatus.pending) = false
sets_status (some ids) (some _) = true

-- `input.projectSiteId !== undefined && isOutsideProjectSiteScope(scope, input.projectSiteId)`
abbrev pub moves_outside : Option (List String) → Option String → Bool
moves_outside scope none = false
moves_outside scope (some site) = is_outside_scope scope (some site)

-- `isOutsideProjectSiteScope(scope, before?.projectSiteId)`, which is false without a scope.
abbrev pub is_outside_read : Option (List String) → Option UsageRequest → Bool
is_outside_read scope none = is_outside_scope scope none
is_outside_read scope (some r) = is_outside_scope scope (some r.project_site_id)

-- The action that a patch is logged as.
abbrev pub patch_action : Option UsageStatus → String
patch_action (some UsageStatus.rejected) = "project_usage_request.reject"
patch_action _ = "project_usage_request.update"

module _ (U : Table UsageRequest) (A : AuditTable) (audited : Bool) (caller : Option Caller) where
  -- The requests and the trail.
  abbrev pub Desk : Type 0
  Desk = U.State × A.State

  abbrev pub actor_id : Option Caller → Option String
  actor_id none = none
  actor_id (some user) = some user.id

  abbrev pub usage_entry : String → String → AuditEntry
  usage_entry action id = record {
    actor_user_id = actor_id caller;
    action = action;
    entity_type = "project_usage_request";
    entity_id = some id;
  }

  -- The reply once the entry is written; where that fails, the change stays.
  unfoldable pub logged_reply :
      String → (UsageRequest → Response) → UsageRequest → Desk → Response × Desk
  logged_reply action reply r (u, audit) =
      elim (write_audit_log A audited audit (usage_entry action r.id)) [
        | none ↦ (server_error, (u, audit))
        | some audit' ↦ (reply r, (u, audit'))
      ]

  unfoldable pub create_checked : UsageInput → Desk → Response × Desk
  unfolding logged_reply
  create_checked input (u, audit) = elim (create_usage U input u) [
    | err e ↦ (thrown_reply (repository e), (u, audit))
    | ok (r, u') ↦ logged_reply "project_usage_request.create" created r (u', audit)
  ]

  -- The checks of the caller's scope, and the creation.
  unfoldable pub create_in_scope : UsageInput → Desk → Response × Desk
  unfolding create_checked
  create_in_scope input w =
      if is_outside_scope (scoped_project_site_ids caller) input.project_site_id
      then (not_found, w)
      else if sets_status (scoped_project_site_ids caller) input.status
      then (bad_request ("project-site users can only create pending usage requests" ∷ []), w)
      else create_checked input w

  -- A caller that is not external.
  unfoldable pub post_internal : Json → Desk → Response × Desk
  unfolding create_in_scope
  post_internal body w = elim (normalize_usage_input body create) [
    | err issues ↦ (bad_request issues, w)
    | ok input ↦ create_in_scope input w
  ]

  unfoldable pub post_external : Caller → String → Json → Desk → Response × Desk
  unfolding create_in_scope external_body external_input
  post_external user site body w = elim (normalize_usage_input (external_body site body) create) [
    | err issues ↦ (bad_request issues, w)
    | ok input ↦ create_in_scope (external_input user site input) w
  ]

  unfoldable pub post_by : Caller → Option (List String) → Json → Desk → Response × Desk
  unfolding post_internal post_external
  post_by user none body w = post_internal body w
  post_by user (some []) body w = (not_found, w)
  post_by user (some (site ∷ sites)) body w = post_external user site body w

  unfoldable pub post_as : Option Caller → Json → Desk → Response × Desk
  unfolding post_by post_internal
  post_as none body w = post_internal body w
  post_as (some user) body w = post_by user (external_project_site_ids (some user)) body w

  -- POST /api/project-usage-requests
  unfoldable pub post_usage : Bool → Json → Desk → Response × Desk
  unfolding post_as
  post_usage false body w = (unavailable, w)
  post_usage true body w = post_as caller body w

  unfoldable pub patch_checked : String → UsageInput → Desk → Response × Desk
  unfolding logged_reply
  patch_checked id input (u, audit) = elim (update_usage U id input u) [
    | err e ↦ (thrown_reply (repository e), (u, audit))
    | ok (none, u') ↦ (not_found, (u', audit))
    | ok (some r, u') ↦ logged_reply (patch_action input.status) success r (u', audit)
  ]

  -- The checks of the caller's scope on the request as it was read before, and the update.
  unfoldable pub patch_in_scope : String → UsageInput → Option UsageRequest → Desk → Response × Desk
  unfolding patch_checked
  patch_in_scope id input before w =
      let scope = scoped_project_site_ids caller in
      if is_outside_read scope before
      then (not_found, w)
      else if moves_outside scope input.project_site_id
      then (not_found, w)
      else if sets_status scope input.status
      then (bad_request ("project-site users can only keep usage requests pending" ∷ []), w)
      else patch_checked id input w

  -- PATCH /api/project-usage-requests/:id, whose handler reads the request (in `read`) before it
  -- updates it.
  unfoldable pub patch_usage : Bool → String → Json → U.State → Desk → Response × Desk
  unfolding patch_in_scope
  patch_usage false id body read w = (unavailable, w)
  patch_usage true id body read w = elim (external_project_site_ids caller) [
    | some _ ↦ (forbidden, w)
    | none ↦ elim (normalize_usage_input body update) [
      | err issues ↦ (bad_request issues, w)
      | ok input ↦ patch_in_scope id input (U.find_unique read id) w
    ]
  ]
