-- ===== src/Access/Sessions.antt =====
-- Accounts, sessions, and the store of sessions: apps/api/src/modules/auth/authTypes.ts and
-- sessionService.ts. Times are milliseconds; `none` is a text that is no date.
pub mod Memory
use company_erp.Base.{
  ◌≡◌, ℕ, ◌/◌, ltb, String, Bool, true, false, not, ◌&&◌, ◌||◌, Option, none, some, List, [], ◌∷◌,
  any, length, ◌==◌, is_empty, str_eq, or_else, if◌then◌else◌,
}
use company_erp.Access.Roles.{Role, project_site, external_project_site, same_role}

pub data AccountStatus : Type 0 where
  active disabled locked : AccountStatus

pub data EmployeeStatus : Type 0 where
  active resigned disabled : EmployeeStatus

-- The columns of `AuthAccountRecord` that signing in reads.
pub record Account : Type 0 where
  pub id : String
  pub roles : List Role
  pub status : AccountStatus
  pub employee_status : Option EmployeeStatus
  pub password_changed_at : Option (Option ℕ)

-- `AuthSessionRecord`
pub record Session : Type 0 where
  pub id : String
  pub user_account_id : String
  pub token_hash : String
  pub csrf_token_hash : Option String
  pub expires_at : Option ℕ
  pub revoked_at : Option ℕ
  pub revoked_reason : Option String
  pub ip : Option String
  pub user_agent : Option String
  pub last_seen_at : Option ℕ
  pub created_at : Option ℕ
  pub updated_at : Option ℕ

-- `exclusiveScopedRoles`
abbrev pub exclusive_roles : List Role
exclusive_roles = project_site ∷ external_project_site ∷ []

abbrev employee_may : Option EmployeeStatus → Bool
employee_may none = true
employee_may (some EmployeeStatus.active) = true
employee_may (some _) = false

-- `accountCanLogin`
unfoldable pub account_can_login : Account → Bool
unfolding same_role
account_can_login account = elim account.status [
  | AccountStatus.active ↦
      if any (λ role. any (same_role role) exclusive_roles) account.roles
        && not (length account.roles == 1)
      then false
      else employee_may account.employee_status
  | _ ↦ false
]

abbrev after : Option ℕ → ℕ → Bool
after none now = false
after (some t) now = ltb now t

-- `authSessionIsActive`
unfoldable pub auth_session_is_active : Session → ℕ → Bool
auth_session_is_active session now = elim session.revoked_at [
  | some _ ↦ false
  | none ↦ after session.expires_at now
]

abbrev seconds_before : Option ℕ → Option ℕ → Bool
seconds_before (some created) (some changed) = ltb (created / 1000) (changed / 1000)
seconds_before _ _ = false

-- The test of `resolveSessionUser` on the account's password.
unfoldable pub is_before_password : Session → Account → Bool
is_before_password session account = elim account.password_changed_at [
  | none ↦ false
  | some changed ↦ seconds_before session.created_at changed
]

-- `touchSession` writes these columns.
unfoldable pub touched : ℕ → Session → Session
touched at session = record session { last_seen_at = some at; updated_at = some at }

-- A session without what a touch writes.
unfoldable pub unseen : Session → Session
unseen session = record session { last_seen_at = none; updated_at = none }

abbrev pub unseen_option : Option Session → Option Session
unfolding unseen
unseen_option none = none
unseen_option (some session) = some (unseen session)

-- What the guard uses of an `AuthSessionStore`. A touch changes when a session was last seen.
pub record SessionStore : Type 1 where
  pub State : Type 0
  pub find_session_by_token_hash : State → String → Option Session
  pub touch_session : State → String → ℕ → State
  pub find-touch :
      (s : State) (id : String) (at : ℕ) (token_hash : String)
      → unseen_option (find_session_by_token_hash (touch_session s id at) token_hash)
        ≡ unseen_option (find_session_by_token_hash s token_hash)

-- The rest depends on `createHash("sha256")` of Node, in hexadecimal.
module _ (sha256 : String → String) where
  -- `csrfTokenMatches`
  unfoldable pub csrf_token_matches : Session → String → Bool
  csrf_token_matches session token = elim session.csrf_token_hash [
    | none ↦ false
    | some hash ↦ not (is_empty hash) && (not (is_empty token) && str_eq hash (sha256 token))
  ]

  -- `sessionForRequest`, from the cookie of the session.
  unfoldable pub session_for_request :
      (Store : SessionStore) → Option String → ℕ → Store.State → Option Session
  session_for_request Store none now s = none
  session_for_request Store (some token) now s =
      if is_empty token then none else elim (Store.find_session_by_token_hash s (sha256 token)) [
        | none ↦ none
        | some session ↦ if auth_session_is_active session now then some session else none
      ]

  -- `resolveSessionUser`: the session and its account, and the store with the session touched.
  unfoldable pub resolve_session_user :
      (Store : SessionStore)
      → (String → Option Account)
      → Option String
      → ℕ
      → ℕ
      → Store.State
      → Option (Session × Account) × Store.State
  unfolding session_for_request
  resolve_session_user Store find_by_id cookie now seen s =
      elim (session_for_request Store cookie now s) [
        | none ↦ (none, s)
        | some session ↦ elim (find_by_id session.user_account_id) [
          | none ↦ (none, s)
          | some account ↦
              if account_can_login account && not (is_before_password session account)
              then (some (session, account), Store.touch_session s session.id seen)
              else (none, s)
        ]
      ]
