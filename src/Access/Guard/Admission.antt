-- ===== src/Access/Guard/Admission.antt =====
-- What a request that the hook lets pass has shown.
use company_erp.Base.{
  ◌≡◌, refl, ◌⊎◌, inl, inr, String, Bool, true, false, Option, none, some, or_else, Bool-cases,
  Option-cases,
}
use company_erp.Access.Paths.{RoutePermission, route_permission, is_self_service_path}
use company_erp.Access.Sessions.{Account, Session, SessionStore, csrf_token_matches}
use company_erp.Access.Guard.{
  Request, Clock, Verdict, public_path, admitted, not_configured, auth_required, csrf_token_invalid,
  not_mapped, forbidden, is_unsafe, allows_unauthenticated, is_allowed, check_permission,
  csrf_holds, check_session, session_verdict, check_request,
}
use company_erp.Access.Guard.Resolution.{Resolved, resolve_session_user-cases, csrf_holds-matches}

module _ (sha256 : String → String) (Store : SessionStore) where
  -- The path is self-service, or the account's roles have the level that it needs.
  abbrev pub Permitted : Request → Account → Type 0
  Permitted request account =
      (is_self_service_path request.pathname request.method ≡ true)
      ⊎ ((permission : RoutePermission) × (route_permission request.pathname request.method
            ≡ some permission)
          × (is_allowed account permission ≡ true))

  -- Everything that an admitted request has shown.
  pub record Admitted (find_by_id : String → Option Account) (request : Request) (clock : Clock)
      (s s' : Store.State) (account : Account) : Type 0 where
    pub session : Session
    pub resolved : Resolved sha256 Store find_by_id request clock s session account
    pub csrf :
        (is_unsafe request.method ≡ false)
        ⊎ (csrf_token_matches sha256 session (or_else request.csrf_header "") ≡ true)
    pub permitted : Permitted request account
    pub marked : s' ≡ Store.touch_session s session.id clock.seen

  -- The request was that of an account, and all it did is touch the session.
  pub record Touched (find_by_id : String → Option Account) (request : Request) (clock : Clock)
      (s s' : Store.State) : Type 0 where
    pub session : Session
    pub account : Account
    pub resolved : Resolved sha256 Store find_by_id request clock s session account
    pub marked : s' ≡ Store.touch_session s session.id clock.seen

  -- What each verdict of the hook says.
  abbrev pub VerdictEffect :
      Bool
      → (String → Option Account)
      → Request
      → Clock
      → Store.State
      → Verdict × Store.State
      → Type 0
  VerdictEffect public_internet find_by_id request clock s (public_path, s') =
      (allows_unauthenticated public_internet request ≡ true) × (s' ≡ s)
  VerdictEffect public_internet find_by_id request clock s (not_configured, s') = s' ≡ s
  VerdictEffect public_internet find_by_id request clock s (auth_required, s') = s' ≡ s
  VerdictEffect public_internet find_by_id request clock s (admitted account, s') =
      Admitted find_by_id request clock s s' account
  VerdictEffect public_internet find_by_id request clock s (csrf_token_invalid, s') =
      Touched find_by_id request clock s s'
  VerdictEffect public_internet find_by_id request clock s (not_mapped, s') =
      Touched find_by_id request clock s s'
      × (route_permission request.pathname request.method ≡ none)
  VerdictEffect public_internet find_by_id request clock s (forbidden permission, s') =
      Touched find_by_id request clock s s'
      × (route_permission request.pathname request.method ≡ some permission)

  session_verdict-Effect :
      (public_internet : Bool) (find_by_id : String → Option Account) (request : Request)
      (clock : Clock) (s : Store.State) (session : Session) (account : Account)
      → Resolved sha256 Store find_by_id request clock s session account
      → VerdictEffect public_internet find_by_id request clock s (
          session_verdict sha256 Store request clock
            (some (session, account), Store.touch_session s session.id clock.seen))
  unfolding session_verdict check_permission
  session_verdict-Effect public_internet find_by_id request clock s session account found =
      let s' = Store.touch_session s session.id clock.seen in
      let seen : Touched find_by_id request clock s s' = record {
        session = session;
        account = account;
        resolved = found;
        marked = refl;
      } in
      elim (Bool-cases (csrf_holds sha256 Store request clock s')) [
        | inr fails ↦ rw (session_verdict, fails) seen
        | inl holds ↦
            let passed : Permitted request account
                → Admitted find_by_id request clock s s' account =
              λ permitted. record {
                session = session;
                resolved = found;
                csrf =
                    csrf_holds-matches sha256 Store request clock s session session.id found.found
                      holds;
                permitted = permitted;
                marked = refl;
              } in
            elim (Bool-cases (is_self_service_path request.pathname request.method)) [
              | inl own ↦ rw (session_verdict, holds, check_permission, own) (passed (inl own))
              | inr other ↦ elim (Option-cases (route_permission request.pathname request.method)) [
                | inl none_there ↦
                    rw (session_verdict, holds, check_permission, other, none_there)
                      (seen, none_there)
                | inr (permission, there) ↦ elim (Bool-cases (is_allowed account permission)) [
                  | inl allowed ↦
                      rw (session_verdict, holds, check_permission, other, there, allowed)
                        (passed (inr (permission, there, allowed)))
                  | inr refused ↦
                      rw (session_verdict, holds, check_permission, other, there, refused)
                        (seen, there)
                ]
              ]
            ]
      ]

  check_session-Effect :
      (public_internet : Bool) (find_by_id : String → Option Account) (request : Request)
      (clock : Clock) (s : Store.State)
      → VerdictEffect public_internet find_by_id request clock s
          (check_session sha256 Store find_by_id request clock s)
  unfolding check_session
  check_session-Effect public_internet find_by_id request clock s =
      elim (resolve_session_user-cases sha256 Store find_by_id request clock s) [
        | inl e ↦ rw (check_session, e, session_verdict) refl
        | inr (session, account, e, found) ↦
            rw (check_session, e)
              (session_verdict-Effect public_internet find_by_id request clock s session account
                found)
      ]

  -- The hook with a repository of accounts, verdict by verdict: a request passes without an account only on a public path, and
  -- with an account only if its cookie leads to an active session of an account that may log in
  -- and has not changed its password since, its method is safe or the CSRF token is that of the
  -- session, and its path is self-service or one that the account's roles permit. A refusal for
  -- lack of a session changes no session, and any other changes only when the session was seen.
  pub check_request-Effect :
      (public_internet : Bool) (find_by_id : String → Option Account) (request : Request)
      (clock : Clock) (s : Store.State)
      → VerdictEffect public_internet find_by_id request clock s
          (check_request sha256 Store public_internet (some find_by_id) request clock s)
  unfolding check_request
  check_request-Effect public_internet find_by_id request clock s =
      elim (Bool-cases (allows_unauthenticated public_internet request)) [
        | inl open_path ↦ rw (check_request, open_path) (open_path, refl)
        | inr closed ↦
            rw (check_request, closed)
              (check_session-Effect public_internet find_by_id request clock s)
      ]
