-- ===== src/Usage/Routes.antt =====
-- POST /api/project-usage-requests/:id/issue of
-- apps/api/src/modules/projectSites/projectSiteRoutes.ts.
pub mod Effects
use company_erp.Base.{String, Bool, true, false, Option, none, some, List, [], ◌∷◌, Result, ok, err}
use company_erp.Base.Json.{Json}
use company_erp.Database.{Table, Ledger}
use company_erp.Audit.{AuditTable, AuditEntry, write_audit_log, run_in_transaction}
use company_erp.Usage.Types.{Site, Material, UsageRequest, StockMovement, IssueInput}
use company_erp.Usage.Input.{normalize_issue_input}
use company_erp.Usage.Issue.{UsageError, validation, conflict, database, issue, Stores}

pub data Response : Type 0 where
  created success : UsageRequest → Response
  bad_request : List String → Response
  field_conflict : String → Response
  not_found forbidden unavailable server_error : Response

-- What leaves the callback of the transaction.
pub data Thrown : Type 0 where
  repository : UsageError → Thrown
  audit_write : Thrown

-- The replies of the `catch` of the usage routes.
unfoldable pub thrown_reply : Thrown → Response
thrown_reply (repository (validation issues)) = bad_request issues
thrown_reply (repository (conflict field)) = field_conflict field
thrown_reply (repository (database e)) = server_error
thrown_reply audit_write = server_error

unfoldable pub issue_reply : Result Thrown (Option UsageRequest) → Response
unfolding thrown_reply
issue_reply (ok none) = not_found
issue_reply (ok (some r)) = created r
issue_reply (err e) = thrown_reply e

module _ (U : Table UsageRequest) (M : Ledger StockMovement) (site_of : String → Site)
    (material_of : String → Option Material) (A : AuditTable) (audited : Bool)
    (actor : Option String) where
  -- Requests, movements and the trail.
  abbrev pub World : Type 0
  World = Stores U M site_of material_of × A.State

  abbrev pub entry : String → AuditEntry
  entry id = record {
    actor_user_id = actor;
    action = "project_usage_request.issue";
    entity_type = "project_usage_request";
    entity_id = some id;
  }

  -- The entry for what was issued.
  unfoldable pub logged_result :
      Option UsageRequest → World → Result Thrown (Option UsageRequest × World)
  logged_result none w = ok (none, w)
  logged_result (some r) (s, audit) = elim (write_audit_log A audited audit (entry r.id)) [
    | none ↦ err audit_write
    | some audit' ↦ ok (some r, (s, audit'))
  ]

  -- The callback.
  unfoldable pub logged_issue :
      String → IssueInput → World → Result Thrown (Option UsageRequest × World)
  unfolding logged_result
  logged_issue id input (s, audit) = elim (issue U M site_of material_of id input s) [
    | err e ↦ err (repository e)
    | ok (o, s') ↦ logged_result o (s', audit)
  ]

  unfoldable pub issue_route : String → IssueInput → World → Response × World
  unfolding logged_issue
  issue_route id input w =
      let (r, w') = run_in_transaction (logged_issue id input) w in (issue_reply r, w')

  unfoldable pub post_issue : Bool → String → Json → World → Response × World
  unfolding issue_route
  post_issue false id body w = (unavailable, w)
  post_issue true id body w = elim (normalize_issue_input body) [
    | err issues ↦ (bad_request issues, w)
    | ok input ↦ issue_route id input w
  ]
