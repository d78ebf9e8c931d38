-- ===== src/Access/Sessions/Memory/Replay.antt =====
-- The store in memory against its specification: a function from token hashes to sessions, on
-- which each operation acts pointwise.
use company_erp.Base.{
  ◌≡◌, refl, inl, inr, ℕ, String, false, Option, none, some, List, [], ◌∷◌, str_eq, if◌then◌else◌,
  ap, arith, Bool-cases, ◌∙◌, sym, subst, eq_iff,
}
use company_erp.Access.Sessions.{Session, touched}
use company_erp.Access.Sessions.Memory.{
  Sessions, get_session, set_session, change_first, change_all, with_csrf, revoked, revoked_for,
  new_session, Op, create_session, touch_session, update_session_csrf_token, revoke_session,
  revoke_sessions_for_account, apply, run,
}
use company_erp.Access.Sessions.Memory.Distinct.{
  Unused, Distinct, KeepsId, str_eq_comm, Distinct-change_all, Distinct-set_session,
}

abbrev Lookup : Type 0
Lookup = String → Option Session

-- The change of the session that has the id.
unfoldable pub change_if : String → (Session → Session) → Session → Session
change_if id change session = if str_eq session.id id then change session else session

abbrev change_option : (Session → Session) → Option Session → Option Session
change_option change none = none
change_option change (some session) = some (change session)

unfoldable pub specified : Op → Lookup → Lookup
unfolding change_if touched with_csrf revoked revoked_for new_session
specified (create_session id input) found hash =
    if str_eq input.token_hash hash then some (new_session id input) else found hash
specified (touch_session id at) found hash = change_option (change_if id (touched at)) (found hash)
specified (update_session_csrf_token id csrf at) found hash =
    change_option (change_if id (with_csrf csrf at)) (found hash)
specified (revoke_session id at reason) found hash =
    change_option (change_if id (revoked at reason)) (found hash)
specified (revoke_sessions_for_account account at reason) found hash =
    change_option (revoked_for account at reason) (found hash)

unfoldable pub replay : List Op → Lookup → Lookup
unfolding specified
replay [] found = found
replay (op ∷ ops) found = replay ops (specified op found)

-- The ids that the operations draw are not in use at the time.
abbrev pub FreshFor : Op → Sessions → Type 0
FreshFor (create_session id input) s = Unused id s
FreshFor _ s = Unit

abbrev pub Fresh : List Op → Sessions → Type 0
Fresh [] s = Unit
Fresh (op ∷ ops) s = FreshFor op s × Fresh ops (apply op s)

change_all-Unused :
    (s : Sessions) (id : String) (change : Session → Session)
    → Unused id s
    → change_all (change_if id change) s ≡ s
unfolding change_all change_if
change_all-Unused [] id change unused = refl
change_all-Unused ((k, session) ∷ rest) id change (here, there) =
    rw (here, change_all-Unused rest id change there) refl

-- With distinct ids, the first session that has the id is the only one.
change_first-change_all :
    (s : Sessions) (id : String) (change : Session → Session)
    → Distinct s
    → change_first id change s ≡ change_all (change_if id change) s
unfolding change_first change_all change_if
change_first-change_all [] id change distinct = refl
change_first-change_all ((k, session) ∷ rest) id change (new, distinct) =
    elim (Bool-cases (str_eq session.id id)) [
      | inl same ↦
          let unused = subst (λ i. Unused i rest) ((eq_iff session.id id).0 same) new in
          rw (same, change_first, change_if, change_all-Unused rest id change unused) refl
      | inr other ↦
          rw (other, change_first, change_if, change_first-change_all rest id change distinct) refl
    ]

get-change_all :
    (s : Sessions) (change : Session → Session) (hash : String)
    → get_session (change_all change s) hash ≡ change_option change (get_session s hash)
unfolding get_session change_all
get-change_all [] change hash = refl
get-change_all ((k, session) ∷ rest) change hash = elim (Bool-cases (str_eq k hash)) [
  | inl here ↦ rw (here, get_session) refl
  | inr there ↦ rw (there, get_session) (get-change_all rest change hash)
]

get-set_session :
    (s : Sessions) (key hash : String) (session : Session)
    → get_session (set_session key session s) hash
      ≡ (if str_eq key hash then some session else get_session s hash)
unfolding get_session set_session
get-set_session [] key hash session = refl
get-set_session ((k, old) ∷ rest) key hash session = elim (Bool-cases (str_eq k key)) [
  | inl same ↦ elim (Bool-cases (str_eq key hash)) [
    | inl here ↦ rw (same, set_session, (eq_iff k key).0 same, here, get_session) refl
    | inr there ↦ rw (same, set_session, (eq_iff k key).0 same, there, get_session) refl
  ]
  | inr other ↦ elim (Bool-cases (str_eq k hash)) [
    | inl here ↦
        let apart =
          subst (λ h. str_eq key h ≡ false) ((eq_iff k hash).0 here) (str_eq_comm k key other) in
        rw (other, set_session, here, get_session, apart) refl
    | inr there ↦
        rw (other, set_session, there, get_session) (get-set_session rest key hash session)
  ]
]

change_if-KeepsId :
    (id : String) (change : Session → Session) → KeepsId change → KeepsId (change_if id change)
unfolding change_if
change_if-KeepsId id change keeps session = elim (Bool-cases (str_eq session.id id)) [
  | inl e ↦ rw (e, change_if) (keeps session)
  | inr e ↦ rw (e, change_if) refl
]

revoked_for-KeepsId :
    (account : String) (at : ℕ) (reason : String) → KeepsId (revoked_for account at reason)
unfolding revoked_for revoked
revoked_for-KeepsId account at reason session = ground arith

Distinct-change_first :
    (s : Sessions) (id : String) (change : Session → Session)
    → KeepsId change
    → Distinct s
    → Distinct (change_first id change s)
Distinct-change_first s id change keeps distinct =
    subst Distinct (sym (change_first-change_all s id change distinct))
      (Distinct-change_all s (change_if id change) (change_if-KeepsId id change keeps) distinct)

Distinct-apply : (op : Op) (s : Sessions) → FreshFor op s → Distinct s → Distinct (apply op s)
unfolding apply touched with_csrf revoked new_session
Distinct-apply (create_session id input) s fresh d =
    Distinct-set_session s input.token_hash (new_session id input) fresh d
Distinct-apply (touch_session id at) s fresh d =
    Distinct-change_first s id (touched at) (λ x. refl) d
Distinct-apply (update_session_csrf_token id csrf at) s fresh d =
    Distinct-change_first s id (with_csrf csrf at) (λ x. refl) d
Distinct-apply (revoke_session id at reason) s fresh d =
    Distinct-change_first s id (revoked at reason) (λ x. refl) d
Distinct-apply (revoke_sessions_for_account account at reason) s fresh d =
    Distinct-change_all s (revoked_for account at reason) (revoked_for-KeepsId account at reason) d

get-change_first :
    (s : Sessions) (id : String) (change : Session → Session) (hash : String)
    → Distinct s
    → get_session (change_first id change s) hash
      ≡ change_option (change_if id change) (get_session s hash)
get-change_first s id change hash distinct =
    rw (change_first-change_all s id change distinct) (get-change_all s (change_if id change) hash)

get-apply :
    (op : Op) (s : Sessions) (hash : String)
    → Distinct s
    → get_session (apply op s) hash ≡ specified op (get_session s) hash
unfolding apply specified
get-apply (create_session id input) s hash d =
    get-set_session s input.token_hash hash (new_session id input)
get-apply (touch_session id at) s hash d = get-change_first s id (touched at) hash d
get-apply (update_session_csrf_token id csrf at) s hash d =
    get-change_first s id (with_csrf csrf at) hash d
get-apply (revoke_session id at reason) s hash d = get-change_first s id (revoked at reason) hash d
get-apply (revoke_sessions_for_account account at reason) s hash d =
    get-change_all s (revoked_for account at reason) hash

-- Whatever sequence of operations runs on the store in memory, its sessions are those that the
-- specification has, if the store starts with distinct session ids and each id drawn for a new
-- session is unused at that time.
pub run-replay :
    (ops : List Op) (s : Sessions)
    → Distinct s
    → Fresh ops s
    → get_session (run ops s) ≡ replay ops (get_session s)
unfolding run replay
run-replay [] s distinct fresh = refl
run-replay (op ∷ ops) s distinct (new, fresh) =
    run-replay ops (apply op s) (Distinct-apply op s new distinct) fresh
    ∙ ap (replay ops) (λ i hash. get-apply op s hash distinct i)
