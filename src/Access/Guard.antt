-- ===== src/Access/Guard.antt =====
-- The hook that decides on every request: `registerAuthGuards` of
-- apps/api/src/modules/auth/authGuards.ts.
pub mod Resolution
pub mod Admission
pub mod Managers
use company_erp.Base.{
  ◌≡◌, ℕ, String, Bool, true, false, Option, none, some, List, [], ◌∷◌, any, str_eq, or_else,
  if◌then◌else◌,
}
use company_erp.Access.Roles.{Area, can_manage, can_read}
use company_erp.Access.Paths.{
  RequiredLevel, read, manage, RoutePermission, route_permission, is_public_path,
  is_public_internet_path, is_self_service_path,
}
use company_erp.Access.Sessions.{
  Account, Session, SessionStore, session_for_request, resolve_session_user, csrf_token_matches,
}

-- What the hook reads of a request: the path and the method, the cookie of the session, and the
-- header of the CSRF token.
pub record Request : Type 0 where
  pub pathname : String
  pub method : String
  pub cookie : Option String
  pub csrf_header : Option String

-- The three times at which the hook reads the clock.
pub record Clock : Type 0 where
  pub resolved : ℕ
  pub seen : ℕ
  pub rechecked : ℕ

-- The hook lets the request pass, without or with an account, or it replies.
pub data Verdict : Type 0 where
  public_path : Verdict
  admitted : Account → Verdict
  not_configured auth_required csrf_token_invalid not_mapped : Verdict
  forbidden : RoutePermission → Verdict

-- `unsafeMethods.has(method)`
unfoldable pub is_unsafe : String → Bool
is_unsafe method = any (str_eq method) ("POST" ∷ "PATCH" ∷ "PUT" ∷ "DELETE" ∷ [])

-- `allowUnauthenticated`
unfoldable pub allows_unauthenticated : Bool → Request → Bool
allows_unauthenticated public_internet request =
    if public_internet
    then is_public_internet_path request.pathname request.method
    else is_public_path request.pathname request.method

-- Whether the roles of the account have the level that the route needs.
unfoldable pub is_allowed : Account → RoutePermission → Bool
is_allowed account permission = elim permission.required_level [
  | manage ↦ can_manage account.roles permission.area
  | read ↦ can_read account.roles permission.area
]

-- The part of the hook after the CSRF check.
unfoldable pub check_permission : Account → Request → Verdict
unfolding is_allowed
check_permission account request =
    if is_self_service_path request.pathname request.method
    then admitted account
    else elim (route_permission request.pathname request.method) [
      | none ↦ not_mapped
      | some permission ↦
          if is_allowed account permission then admitted account else forbidden permission
    ]

module _ (sha256 : String → String) (Store : SessionStore) where
  -- Whether the request has a token that matches its session, where the method needs one.
  unfoldable pub csrf_holds : Request → Clock → Store.State → Bool
  unfolding is_unsafe
  csrf_holds request clock s =
      if is_unsafe request.method
      then elim (session_for_request sha256 Store request.cookie clock.rechecked s) [
        | none ↦ false
        | some session ↦ csrf_token_matches sha256 session (or_else request.csrf_header "")
      ]
      else true

  -- The hook once the session is looked up.
  unfoldable pub session_verdict :
      Request → Clock → Option (Session × Account) × Store.State → Verdict × Store.State
  unfolding csrf_holds
  session_verdict request clock (none, s) = (auth_required, s)
  session_verdict request clock (some (session, account), s) = (
    if csrf_holds request clock s then check_permission account request else csrf_token_invalid,
    s,
  )

  unfoldable pub check_session :
      (String → Option Account) → Request → Clock → Store.State → Verdict × Store.State
  unfolding session_verdict
  check_session find_by_id request clock s =
      session_verdict request clock
        (resolve_session_user sha256 Store find_by_id request.cookie clock.resolved clock.seen s)

  -- The hook. Its repository is absent where none is configured.
  unfoldable pub check_request :
      Bool
      → Option (String → Option Account)
      → Request
      → Clock
      → Store.State
      → Verdict × Store.State
  unfolding check_session
  check_request public_internet repository request clock s =
      if allows_unauthenticated public_internet request then (public_path, s) else elim repository [
        | none ↦ (not_configured, s)
        | some find_by_id ↦ check_session find_by_id request clock s
      ]
