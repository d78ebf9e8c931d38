-- ===== src/Access/Sessions/Memory.antt =====
-- `createInMemorySessionStore` of sessionService.ts: a `Map` from token hashes to sessions.
pub mod Distinct
pub mod Replay
pub mod Revocation
use company_erp.Base.{
  ◌≡◌, refl, inl, inr, ℕ, String, Bool, true, false, Option, none, some, List, [], ◌∷◌, str_eq,
  if◌then◌else◌, ap, arith, Bool-cases,
}
use company_erp.Access.Sessions.{Session, SessionStore, touched, unseen, unseen_option}

-- The entries of the map, in the order in which their keys were first set.
abbrev pub Sessions : Type 0
Sessions = List (String × Session)

-- `sessions.get(tokenHash)`
unfoldable pub get_session : Sessions → String → Option Session
get_session [] hash = none
get_session ((k, session) ∷ rest) hash =
    let found = get_session rest hash in if str_eq k hash then some session else found

-- `sessions.set(tokenHash, session)`
unfoldable pub set_session : String → Session → Sessions → Sessions
set_session hash session [] = (hash, session) ∷ []
set_session hash session ((k, old) ∷ rest) =
    let more = set_session hash session rest in
    if str_eq k hash then (k, session) ∷ rest else (k, old) ∷ more

-- `for (const session of sessions.values()) if (session.id === id) { change; return; }`
unfoldable pub change_first : String → (Session → Session) → Sessions → Sessions
change_first id change [] = []
change_first id change ((k, session) ∷ rest) =
    let more = change_first id change rest in
    if str_eq session.id id then (k, change session) ∷ rest else (k, session) ∷ more

-- What `updateSessionCsrfToken` writes.
unfoldable pub with_csrf : String → ℕ → Session → Session
with_csrf hash at session = record session { csrf_token_hash = some hash; updated_at = some at }

-- What `revokeSession` writes.
unfoldable pub revoked : ℕ → String → Session → Session
revoked at reason session = record session {
  revoked_at = some at;
  revoked_reason = some reason;
  updated_at = some at;
}

-- What the loop of `revokeSessionsForAccount` does to one session.
unfoldable pub revoked_for : String → ℕ → String → Session → Session
unfolding revoked
revoked_for account at reason session = elim session.revoked_at [
  | some _ ↦ session
  | none ↦ if str_eq session.user_account_id account then revoked at reason session else session
]

unfoldable pub change_all : (Session → Session) → Sessions → Sessions
change_all change [] = []
change_all change ((k, session) ∷ rest) = (k, change session) ∷ change_all change rest

-- `CreateAuthSessionInput`
pub record CreateInput : Type 0 where
  pub user_account_id : String
  pub token_hash : String
  pub csrf_token_hash : Option String
  pub expires_at : ℕ
  pub created_at : ℕ
  pub ip : Option String
  pub user_agent : Option String

-- The session that `createSession` makes, under the id that was drawn for it.
unfoldable pub new_session : String → CreateInput → Session
new_session id input = record {
  id = id;
  user_account_id = input.user_account_id;
  token_hash = input.token_hash;
  csrf_token_hash = input.csrf_token_hash;
  expires_at = some input.expires_at;
  revoked_at = none;
  revoked_reason = none;
  ip = input.ip;
  user_agent = input.user_agent;
  last_seen_at = some input.created_at;
  created_at = some input.created_at;
  updated_at = some input.created_at;
}

-- The operations that change the store.
pub data Op : Type 0 where
  create_session : String → CreateInput → Op
  touch_session : String → ℕ → Op
  update_session_csrf_token : String → String → ℕ → Op
  revoke_session : String → ℕ → String → Op
  revoke_sessions_for_account : String → ℕ → String → Op

unfoldable pub apply : Op → Sessions → Sessions
unfolding set_session change_first change_all touched with_csrf revoked revoked_for new_session
apply (create_session id input) s = set_session input.token_hash (new_session id input) s
apply (touch_session id at) s = change_first id (touched at) s
apply (update_session_csrf_token id hash at) s = change_first id (with_csrf hash at) s
apply (revoke_session id at reason) s = change_first id (revoked at reason) s
apply (revoke_sessions_for_account account at reason) s =
    change_all (revoked_for account at reason) s

unfoldable pub run : List Op → Sessions → Sessions
unfolding apply
run [] s = s
run (op ∷ ops) s = run ops (apply op s)

pub get_session-touched :
    (s : Sessions) (id : String) (at : ℕ) (hash : String)
    → unseen_option (get_session (change_first id (touched at) s) hash)
      ≡ unseen_option (get_session s hash)
unfolding get_session change_first touched unseen
get_session-touched [] id at hash = refl
get_session-touched ((k, session) ∷ rest) id at hash = elim (Bool-cases (str_eq session.id id)) [
  | inl same ↦ elim (Bool-cases (str_eq k hash)) [
    | inl here ↦ rw (same, change_first, here, get_session) refl
    | inr there ↦ rw (same, change_first, there, get_session) refl
  ]
  | inr other ↦ elim (Bool-cases (str_eq k hash)) [
    | inl here ↦ rw (other, change_first, here, get_session) refl
    | inr there ↦ rw (other, change_first, there, get_session) (get_session-touched rest id at hash)
  ]
]

-- The store in memory is a store for the guard.
abbrev pub memory_store : SessionStore
memory_store = record {
  State = Sessions;
  find_session_by_token_hash = get_session;
  touch_session = λ s id at. change_first id (touched at) s;
  find-touch = get_session-touched;
}
