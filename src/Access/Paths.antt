-- ===== src/Access/Paths.antt =====
-- Which permission a path needs, and which paths need none:
-- apps/api/src/modules/auth/routePermission.ts.
pub mod Levels
use company_erp.Base.{
  String, Bool, true, false, ◌&&◌, ◌||◌, Option, none, some, List, [], ◌∷◌, any, find, str_eq,
  if◌then◌else◌,
}
use company_erp.Base.Text.{starts_with, ends_with, includes}
use company_erp.Access.Roles.{
  Area, master_data, employees, departments, user_accounts, procurement, inventory,
  inventory_quantity, contracts, certificates, business_projects, project_sites,
  project_site_kitchen_equipment, project_usage, project_usage_request, market_operations_handoffs,
  audit_logs, attachments, dashboard, system_settings,
}

-- `RequiredLevel`
pub data RequiredLevel : Type 0 where
  read manage : RequiredLevel

pub record RoutePermission : Type 0 where
  pub area : Area
  pub required_level : RequiredLevel

-- `RoutePermissionRule`, with a level that does not look at the method as a constant function.
pub record RoutePermissionRule : Type 0 where
  pub test : String → String → Bool
  pub area : Area
  pub required_level : String → RequiredLevel

-- `method === "GET" || method === "HEAD"`
unfoldable pub is_reading : String → Bool
is_reading method = str_eq method "GET" || str_eq method "HEAD"

unfoldable pub level_for_method : String → RequiredLevel
unfolding is_reading
level_for_method method = if is_reading method then read else manage

-- `startsWith` of any of the prefixes, whatever the method is.
abbrev pub under : List String → String → String → Bool
under prefixes pathname method = any (starts_with pathname) prefixes

abbrev pub always : RequiredLevel → String → RequiredLevel
always level method = level

abbrev pub rule : (String → String → Bool) → Area → (String → RequiredLevel) → RoutePermissionRule
rule test area level = record { test = test; area = area; required_level = level }

-- The entry of `ROUTE_PERMISSION_TABLE` for paths below one prefix.
abbrev pub below : String → Area → (String → RequiredLevel) → RoutePermissionRule
below prefix = rule (under (prefix ∷ []))

-- `ROUTE_PERMISSION_TABLE`
unfoldable pub route_permission_table : List RoutePermissionRule
unfolding level_for_method is_reading
route_permission_table =
    below "/api/internal/app-version" system_settings (always read)
    ∷ below "/api/internal/meta/" system_settings (always read)
    ∷ below "/api/audit-logs" audit_logs level_for_method
    ∷ below "/api/attachments" attachments level_for_method
    ∷ below "/api/project-site-attachment-uploads" certificates (always manage)
    ∷ below "/api/app-config" system_settings level_for_method
    ∷ below "/api/dashboard" dashboard (always read)
    ∷ rule (under ("/api/parties" ∷ "/api/materials" ∷ "/api/warehouses" ∷ [])) master_data
        level_for_method
    ∷ below "/api/departments" departments level_for_method
    ∷ below "/api/employees" employees level_for_method
    ∷ below "/api/user-accounts" user_accounts level_for_method
    ∷ below "/api/external-project-site-accounts" user_accounts level_for_method
    ∷ below "/api/project-site-assignments" employees level_for_method
    ∷ rule
        (under (
          "/api/purchase-requests" ∷ "/api/purchase-records" ∷ "/api/replenishment-suggestions"
          ∷ []))
        procurement level_for_method
    ∷ below "/api/inventory-balances" inventory_quantity level_for_method
    ∷ below "/api/inventory-movements" inventory level_for_method
    ∷ below "/api/project-sites" project_sites level_for_method
    ∷ rule
        (under (
          "/api/project-site-kitchen-equipment"
          ∷ "/api/project-site-kitchen-equipment-change-requests" ∷ []))
        project_site_kitchen_equipment level_for_method
    ∷ below "/api/project-usage-options" project_usage_request (always read)
    ∷ rule
        (λ pathname method.
          starts_with pathname "/api/project-usage-requests" && ends_with pathname "/issue")
        inventory (always manage)
    ∷ rule
        (λ pathname method.
          starts_with pathname "/api/project-usage-requests" && str_eq method "POST")
        project_usage_request (always manage)
    ∷ below "/api/project-usage-requests" project_usage level_for_method
    ∷ below "/api/market-operations-handoffs" market_operations_handoffs level_for_method
    ∷ below "/api/business-projects" business_projects level_for_method
    ∷ rule (under ("/api/contracts" ∷ "/api/contract-attachments" ∷ [])) contracts level_for_method
    ∷ rule
        (λ pathname method.
          under
            ("/api/project-site-roster-persons" ∷ "/api/employer-liability-insurance-policies"
              ∷ "/api/employer-liability-insurance-covered-persons"
              ∷ "/api/project-site-payroll-submissions" ∷ [])
            pathname method
          || includes pathname "/compliance-summary")
        certificates level_for_method
    ∷ below "/api/certificates" certificates level_for_method
    ∷ rule (λ pathname method. starts_with pathname "/api/import-jobs" && is_reading method)
        master_data (always read)
    ∷ below "/api/import-jobs" system_settings (always manage)
    ∷ below "/api/import-templates" master_data (always read)
    ∷ []

-- `routePermission`
unfoldable pub route_permission : String → String → Option RoutePermission
unfolding route_permission_table
route_permission pathname method =
    elim (find (λ (item : RoutePermissionRule). item.test pathname method) route_permission_table) [
      | none ↦ none
      | some item ↦ some record { area = item.area; required_level = item.required_level method }
    ]

-- `isPublicPath`
unfoldable pub is_public_path : String → String → Bool
unfolding is_reading
is_public_path pathname method =
    str_eq pathname "/health"
    || starts_with pathname "/api/meta/"
    || starts_with pathname "/api/auth/"
    || str_eq pathname "/api/app-version"
    || str_eq pathname "/api/app-config" && is_reading method

-- One path and one method.
abbrev at : String → String → String → String → Bool
at pathname method p m = str_eq pathname p && str_eq method m

-- `isPublicInternetPath`, whose early returns are the alternatives of one test.
unfoldable pub is_public_internet_path : String → String → Bool
is_public_internet_path pathname method =
    str_eq pathname "/health"
    || str_eq pathname "/api/app-version"
    || at pathname method "/api/auth/login" "POST"
    || at pathname method "/api/auth/mfa/verify-login" "POST"
    || at pathname method "/api/auth/mfa/setup-challenge" "POST"
    || at pathname method "/api/auth/mfa/activate-challenge" "POST"

-- `isAuthenticatedAuthSelfServicePath`
unfoldable pub is_self_service_path : String → String → Bool
is_self_service_path pathname method =
    at pathname method "/api/auth/me" "GET"
    || at pathname method "/api/auth/logout" "POST"
    || at pathname method "/api/auth/mfa/status" "GET"
    || at pathname method "/api/auth/mfa/setup" "POST"
    || at pathname method "/api/auth/mfa/activate" "POST"
    || at pathname method "/api/auth/mfa/disable" "POST"
    || at pathname method "/api/auth/mfa/recovery-code" "POST"
