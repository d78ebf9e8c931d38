-- ===== src/Access/Guard/Managers.antt =====
-- Who writes: the hook and the permission matrix together.
use company_erp.Base.{
  ◌≡◌, List, inl, inr, String, Bool, true, false, Option, some, any, arith, subst, Bool-cases,
}
use company_erp.Base.Text.{starts_with}
use company_erp.Access.Roles.{Role, Area, permission_matrix, any_role, permission_level, can_manage}
use company_erp.Access.Paths.{
  manage, RoutePermission, route_permission, is_reading, is_self_service_path,
}
use company_erp.Access.Paths.Levels.{reading_prefixes, route_permission-manage}
use company_erp.Access.Sessions.{Account, SessionStore}
use company_erp.Access.Guard.{Request, Clock, Verdict, admitted, is_allowed, check_request}
use company_erp.Access.Guard.Admission.{Permitted, VerdictEffect, check_request-Effect}

can_manage-any_role :
    (roles : List Role) (area : Area)
    → can_manage roles area ≡ true
    → any_role roles (permission_matrix area).manage ≡ true
unfolding can_manage permission_level
can_manage-any_role roles area h =
    elim (Bool-cases (any_role roles (permission_matrix area).manage)) [
      | inl e ↦ e
      | inr e ↦ elim (Bool-cases (any_role roles (permission_matrix area).read)) [
        | inl f ↦ ground arith
        | inr f ↦ ground arith
      ]
    ]

is_allowed-managed :
    (account : Account) (permission : RoutePermission)
    → permission.required_level ≡ manage
    → is_allowed account permission ≡ true
    → any_role account.roles (permission_matrix permission.area).manage ≡ true
unfolding is_allowed
is_allowed-managed account permission level h =
    can_manage-any_role account.roles permission.area (ground arith)

module _ (sha256 : String → String) (Store : SessionStore) where
  of_admitted :
      (public_internet : Bool) (find_by_id : String → Option Account) (request : Request)
      (clock : Clock) (s s' : Store.State) (v : Verdict × Store.State) (account : Account)
      → VerdictEffect sha256 Store public_internet find_by_id request clock s v
      → v ≡ (admitted account, s')
      → Permitted sha256 Store request account
  of_admitted public_internet find_by_id request clock s s' (admitted a, s'') account e h =
      let same : a ≡ account = cc in subst (Permitted sha256 Store request) same e.permitted
  of_admitted public_internet find_by_id request clock s s' (_, s'') account e h = cc

  -- An account whose request is admitted with a method other than GET and HEAD, on a path that is
  -- neither self-service nor under a reading prefix, has a role that the permission matrix lists
  -- as a manager of the area to which the path is mapped.
  pub check_request-manager :
      (public_internet : Bool) (find_by_id : String → Option Account) (request : Request)
      (clock : Clock) (s s' : Store.State) (account : Account)
      → check_request sha256 Store public_internet (some find_by_id) request clock s
        ≡ (admitted account, s')
      → is_reading request.method ≡ false
      → is_self_service_path request.pathname request.method ≡ false
      → any (starts_with request.pathname) reading_prefixes ≡ false
      → (permission : RoutePermission) × (route_permission request.pathname request.method
          ≡ some permission)
        × (any_role account.roles (permission_matrix permission.area).manage ≡ true)
  check_request-manager public_internet find_by_id request clock s s' account h writing other
        elsewhere =
      elim (of_admitted public_internet find_by_id request clock s s'
        (check_request sha256 Store public_internet (some find_by_id) request clock s) account
        (check_request-Effect sha256 Store public_internet find_by_id request clock s) h) [
          | inl own ↦ cc
          | inr (permission, there, allowed) ↦ (
            permission,
            there,
            is_allowed-managed account permission
                (route_permission-manage request.pathname request.method permission writing
                  elsewhere there)
                allowed,
          )
        ]
