-- ===== src/Usage/Scope.antt =====
-- The project sites that a caller is confined to: apps/api/src/appRouteContext.ts.
use company_erp.Base.{
  String, Bool, true, false, not, Option, none, some, List, any, str_eq, is_empty, if◌then◌else◌,
}
use company_erp.Access.Roles.{Role, external_project_site, same_role}
use company_erp.Access.Sessions.{exclusive_roles}

-- What the routes of project sites read of `request.currentUser`.
pub record Caller : Type 0 where
  pub id : String
  pub roles : List Role
  pub assigned_project_site_ids : List String
  pub employee_name : Option String
  pub contact_name : Option String
  pub contact_phone : Option String

-- `hasRole`
abbrev pub has_role : List Role → Role → Bool
has_role roles role = any (same_role role) roles

-- `hasScopedProjectSiteRole`
abbrev pub has_scoped_role : List Role → Bool
has_scoped_role roles = any (λ role. any (same_role role) exclusive_roles) roles

-- `scopedProjectSiteIds`
unfoldable pub scoped_project_site_ids : Option Caller → Option (List String)
unfolding same_role
scoped_project_site_ids none = none
scoped_project_site_ids (some user) =
    if has_scoped_role user.roles then some user.assigned_project_site_ids else none

-- `externalProjectSiteAccountSiteIds`
unfoldable pub external_project_site_ids : Option Caller → Option (List String)
unfolding same_role
external_project_site_ids none = none
external_project_site_ids (some user) =
    if has_role user.roles external_project_site then some user.assigned_project_site_ids else none

-- `isOutsideProjectSiteScope`
unfoldable pub is_outside_scope : Option (List String) → Option String → Bool
is_outside_scope none site = false
is_outside_scope (some ids) none = true
is_outside_scope (some ids) (some site) =
    if is_empty site then true else not (any (str_eq site) ids)
