-- ===== src/Access/Guard/Resolution.antt =====
-- The session of a request, its account and its CSRF token.
use company_erp.Base.{
  ◌≡◌, refl, ◌⊎◌, inl, inr, ℕ, String, true, false, Option, none, some, or_else, arith, ap, sym,
  ◌∙◌, some_inj, subst, Bool-cases, Option-cases, is_empty,
}
use company_erp.Access.Sessions.{
  Account, Session, SessionStore, session_for_request, resolve_session_user, csrf_token_matches,
  account_can_login, auth_session_is_active, is_before_password, unseen, unseen_option,
}
use company_erp.Access.Guard.{Request, Clock, is_unsafe, csrf_holds}

module _ (sha256 : String → String) (Store : SessionStore) where
  -- The cookie leads to this session, which is active.
  pub record Found (cookie : Option String) (now : ℕ) (s : Store.State) (session : Session)
      : Type 0 where
    pub token : String
    pub sent : cookie ≡ some token
    pub stored : Store.find_session_by_token_hash s (sha256 token) ≡ some session
    pub active : auth_session_is_active session now ≡ true

  session_for_request-Found :
      (cookie : Option String) (now : ℕ) (s : Store.State) (session : Session)
      → session_for_request sha256 Store cookie now s ≡ some session
      → Found cookie now s session
  unfolding session_for_request
  session_for_request-Found none now s session h = cc
  session_for_request-Found (some token) now s session h = elim (Bool-cases (is_empty token)) [
    | inl e ↦ ground arith
    | inr e ↦ elim (Option-cases (Store.find_session_by_token_hash s (sha256 token))) [
      | inl missing ↦ ground arith
      | inr (x, there) ↦ elim (Bool-cases (auth_session_is_active x now)) [
        | inl active ↦
            let same : x ≡ session = ground arith in
            subst (Found (some token) now s) same
              (record { token = token; sent = refl; stored = there; active = active })
        | inr expired ↦ ground arith
      ]
    ]
  ]

  -- The session of the request and its account, as the repository holds it.
  pub record Resolved (find_by_id : String → Option Account) (request : Request) (clock : Clock)
      (s : Store.State) (session : Session) (account : Account) : Type 0 where
    pub found : Found request.cookie clock.resolved s session
    pub owned : find_by_id session.user_account_id ≡ some account
    pub may_login : account_can_login account ≡ true
    pub since_password : is_before_password session account ≡ false

  pub resolve_session_user-cases :
      (find_by_id : String → Option Account) (request : Request) (clock : Clock) (s : Store.State)
      → (resolve_session_user sha256 Store find_by_id request.cookie clock.resolved clock.seen s
          ≡ (none, s))
        ⊎ ((session : Session) × (account : Account) × (resolve_session_user sha256 Store find_by_id
                request.cookie clock.resolved clock.seen s
              ≡ (some (session, account), Store.touch_session s session.id clock.seen))
            × Resolved find_by_id request clock s session account)
  unfolding resolve_session_user
  resolve_session_user-cases find_by_id request clock s =
      elim (Option-cases (session_for_request sha256 Store request.cookie clock.resolved s)) [
        | inl e ↦ inl (rw (resolve_session_user, e) refl)
        | inr (session, e) ↦ elim (Option-cases (find_by_id session.user_account_id)) [
          | inl missing ↦ inl (rw (resolve_session_user, e, missing) refl)
          | inr (account, there) ↦ elim (Bool-cases (account_can_login account)) [
            | inr barred ↦ inl (rw (resolve_session_user, e, there, barred) refl)
            | inl may ↦ elim (Bool-cases (is_before_password session account)) [
              | inl before ↦ inl (rw (resolve_session_user, e, there, may, before) refl)
              | inr since ↦ inr (
                session,
                account,
                rw (resolve_session_user, e, there, may, since) refl,
                record {
                  found = session_for_request-Found request.cookie clock.resolved s session e;
                  owned = there;
                  may_login = may;
                  since_password = since;
                },
              )
            ]
          ]
        ]
      ]

  unseen-csrf :
      (x session : Session) (token : String)
      → unseen x ≡ unseen session
      → csrf_token_matches sha256 x token ≡ csrf_token_matches sha256 session token
  unfolding unseen csrf_token_matches
  unseen-csrf x session token e = ap (λ y. csrf_token_matches sha256 y token) e

  Found-again :
      (cookie : Option String) (s : Store.State) (id : String) (now seen later : ℕ)
      (session x : Session)
      → Found cookie now s session
      → Found cookie later (Store.touch_session s id seen) x
      → unseen x ≡ unseen session
  unfolding unseen
  Found-again cookie s id now seen later session x first second =
      let tokens : first.token ≡ second.token =
        some_inj first.token second.token (sym first.sent ∙ second.sent) in
      let same = Store.find-touch s id seen (sha256 second.token) in
      let old : Store.find_session_by_token_hash s (sha256 second.token) ≡ some session =
        subst (λ t. Store.find_session_by_token_hash s (sha256 t) ≡ some session) tokens
          first.stored in
      some_inj (unseen x) (unseen session)
        (ap unseen_option (sym second.stored) ∙ same ∙ ap unseen_option old)

  -- The CSRF token is that of the session that was resolved: the touch in between changes only
  -- when it was seen.
  pub csrf_holds-matches :
      (request : Request) (clock : Clock) (s : Store.State) (session : Session) (id : String)
      → Found request.cookie clock.resolved s session
      → csrf_holds sha256 Store request clock (Store.touch_session s id clock.seen) ≡ true
      → (is_unsafe request.method ≡ false)
        ⊎ (csrf_token_matches sha256 session (or_else request.csrf_header "") ≡ true)
  unfolding csrf_holds
  csrf_holds-matches request clock s session id found h =
      elim (Bool-cases (is_unsafe request.method)) [
        | inr e ↦ inl e
        | inl e ↦
            let marked = Store.touch_session s id clock.seen in
            elim (Option-cases
              (session_for_request sha256 Store request.cookie clock.rechecked marked)) [
                | inl missing ↦ ground arith
                | inr (x, there) ↦
                    let matches : csrf_token_matches sha256 x (or_else request.csrf_header "")
                        ≡ true =
                      ground arith in
                    let again =
                      session_for_request-Found request.cookie clock.rechecked marked x there in
                    inr (
                      sym (
                        unseen-csrf x session (or_else request.csrf_header "") (
                          Found-again request.cookie s id clock.resolved clock.seen clock.rechecked
                            session x found again))
                      ∙ matches)
              ]
      ]
