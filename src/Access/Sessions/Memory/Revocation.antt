-- ===== src/Access/Sessions/Memory/Revocation.antt =====
-- Revoking all sessions of an account is final.
use company_erp.Base.{
  ◌≡◌, refl, inl, inr, ℕ, String, true, false, Option, none, some, List, [], ◌∷◌, str_eq, arith,
  Bool-cases, Option-cases, sym, subst,
}
use company_erp.Access.Sessions.{Session, touched, auth_session_is_active}
use company_erp.Access.Sessions.Memory.{
  Sessions, get_session, set_session, change_first, change_all, with_csrf, revoked, revoked_for,
  new_session, Op, create_session, touch_session, update_session_csrf_token, revoke_session,
  revoke_sessions_for_account, apply, run,
}

-- A session of the account is revoked.
abbrev pub IsRevoked : Option ℕ → Type 0
IsRevoked none = ⊥
IsRevoked (some _) = Unit

abbrev pub Closed : String → Session → Type 0
Closed account session =
    str_eq session.user_account_id account ≡ true → IsRevoked session.revoked_at

abbrev AllClosed : String → Sessions → Type 0
AllClosed account [] = Unit
AllClosed account ((k, session) ∷ rest) = Closed account session × AllClosed account rest

-- No operation of the list opens a session of the account.
abbrev pub OpensNone : String → List Op → Type 0
OpensNone account [] = Unit
OpensNone account (create_session id input ∷ ops) =
    (str_eq input.user_account_id account ≡ false) × OpensNone account ops
OpensNone account (op ∷ ops) = OpensNone account ops

closed_inactive :
    (session : Session) (now : ℕ)
    → IsRevoked session.revoked_at
    → auth_session_is_active session now ≡ false
unfolding auth_session_is_active
closed_inactive session now closed = elim (Option-cases session.revoked_at) [
  | inl e ↦ elim (subst IsRevoked e closed) [ ]
  | inr (t, e) ↦ rw (e, auth_session_is_active) refl
]

AllClosed-change_first :
    (account id : String) (change : Session → Session) (s : Sessions)
    → ((session : Session) → Closed account session → Closed account (change session))
    → AllClosed account s
    → AllClosed account (change_first id change s)
unfolding change_first
AllClosed-change_first account id change [] keeps all = tt
AllClosed-change_first account id change ((k, session) ∷ rest) keeps (one, all) =
    elim (Bool-cases (str_eq session.id id)) [
      | inl e ↦ rw (e, change_first) (keeps session one, all)
      | inr e ↦ rw (e, change_first) (one, AllClosed-change_first account id change rest keeps all)
    ]

AllClosed-set_session :
    (account key : String) (session : Session) (s : Sessions)
    → Closed account session
    → AllClosed account s
    → AllClosed account (set_session key session s)
unfolding set_session
AllClosed-set_session account key session [] new all = (new, tt)
AllClosed-set_session account key session ((k, old) ∷ rest) new (one, all) =
    elim (Bool-cases (str_eq k key)) [
      | inl e ↦ rw (e, set_session) (new, all)
      | inr e ↦ rw (e, set_session) (one, AllClosed-set_session account key session rest new all)
    ]

revoked_for-Closed :
    (account other : String) (at : ℕ) (reason : String) (session : Session)
    → Closed account session
    → Closed account (revoked_for other at reason session)
unfolding revoked_for revoked
revoked_for-Closed account other at reason session closed = elim (Option-cases session.revoked_at) [
  | inr (t, e) ↦ rw (e, revoked_for) (λ h. subst IsRevoked (sym e) tt)
  | inl e ↦ elim (Bool-cases (str_eq session.user_account_id other)) [
    | inl same ↦ rw (e, revoked_for, same) (λ h. tt)
    | inr differs ↦ rw (e, revoked_for, differs) closed
  ]
]

revoked_for-closes :
    (account : String) (at : ℕ) (reason : String) (session : Session)
    → Closed account (revoked_for account at reason session)
unfolding revoked_for revoked
revoked_for-closes account at reason session = elim (Option-cases session.revoked_at) [
  | inr (t, e) ↦ rw (e, revoked_for) (λ h. subst IsRevoked (sym e) tt)
  | inl e ↦ elim (Bool-cases (str_eq session.user_account_id account)) [
    | inl same ↦ rw (e, revoked_for, same) (λ h. tt)
    | inr differs ↦ rw (e, revoked_for, differs) (λ h. cc)
  ]
]

AllClosed-change_all :
    (account : String) (change : Session → Session) (s : Sessions)
    → ((session : Session) → Closed account session → Closed account (change session))
    → AllClosed account s
    → AllClosed account (change_all change s)
unfolding change_all
AllClosed-change_all account change [] keeps all = tt
AllClosed-change_all account change ((k, session) ∷ rest) keeps (one, all) =
    (keeps session one, AllClosed-change_all account change rest keeps all)

AllClosed-revoke :
    (account : String) (at : ℕ) (reason : String) (s : Sessions)
    → AllClosed account (change_all (revoked_for account at reason) s)
unfolding change_all
AllClosed-revoke account at reason [] = tt
AllClosed-revoke account at reason ((k, session) ∷ rest) =
    (revoked_for-closes account at reason session, AllClosed-revoke account at reason rest)

AllClosed-run :
    (account : String) (ops : List Op) (s : Sessions)
    → OpensNone account ops
    → AllClosed account s
    → AllClosed account (run ops s)
unfolding run apply touched with_csrf revoked new_session
AllClosed-run account [] s none_opened all = all
AllClosed-run account (create_session id input ∷ ops) s (other, none_opened) all =
    AllClosed-run account ops (apply (create_session id input) s) none_opened
      (AllClosed-set_session account input.token_hash (new_session id input) s (λ h. cc) all)
AllClosed-run account (touch_session id at ∷ ops) s none_opened all =
    AllClosed-run account ops (apply (touch_session id at) s) none_opened
      (AllClosed-change_first account id (touched at) s (λ x c. c) all)
AllClosed-run account (update_session_csrf_token id csrf at ∷ ops) s none_opened all =
    AllClosed-run account ops (apply (update_session_csrf_token id csrf at) s) none_opened
      (AllClosed-change_first account id (with_csrf csrf at) s (λ x c. c) all)
AllClosed-run account (revoke_session id at reason ∷ ops) s none_opened all =
    AllClosed-run account ops (apply (revoke_session id at reason) s) none_opened
      (AllClosed-change_first account id (revoked at reason) s (λ x c h. tt) all)
AllClosed-run account (revoke_sessions_for_account other at reason ∷ ops) s none_opened all =
    AllClosed-run account ops (apply (revoke_sessions_for_account other at reason) s) none_opened (
      AllClosed-change_all account (revoked_for other at reason) s
        (revoked_for-Closed account other at reason) all)

get-Closed :
    (account hash : String) (s : Sessions) (session : Session)
    → AllClosed account s
    → get_session s hash ≡ some session
    → Closed account session
unfolding get_session
get-Closed account hash [] session all h = cc
get-Closed account hash ((k, old) ∷ rest) session (one, all) h = elim (Bool-cases (str_eq k hash)) [
  | inl here ↦ let same : old ≡ session = ground arith in subst (Closed account) same one
  | inr there ↦ get-Closed account hash rest session all (ground arith)
]

-- After all sessions of an account were revoked, and any further operations that open no session
-- of that account, no session of the account that the store still holds is active, at any time.
pub revoke_sessions_for_account-final :
    (account : String) (at : ℕ) (reason : String) (ops : List Op) (s : Sessions) (hash : String)
    (session : Session) (now : ℕ)
    → OpensNone account ops
    → get_session (run (revoke_sessions_for_account account at reason ∷ ops) s) hash ≡ some session
    → str_eq session.user_account_id account ≡ true
    → auth_session_is_active session now ≡ false
unfolding run apply auth_session_is_active
revoke_sessions_for_account-final account at reason ops s hash session now opens found owned =
    let all =
      AllClosed-run account ops (change_all (revoked_for account at reason) s) opens
        (AllClosed-revoke account at reason s) in
    closed_inactive session now (
      get-Closed account hash (run ops (change_all (revoked_for account at reason) s)) session all
        found owned)
