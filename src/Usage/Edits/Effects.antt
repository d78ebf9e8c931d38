-- ===== src/Usage/Edits/Effects.antt =====
-- What creating and changing a usage request has done, by the response.
use company_erp.Base.{
  ◌≡◌, refl, ◌⊎◌, inl, inr, String, Bool, true, false, Option, none, some, or_else, List, [], ◌∷◌,
  ok, ite, String-discrete, Result-cases, Option-cases, Bool-cases,
}
use company_erp.Base.Json.{Json}
use company_erp.Database.{Table}
use company_erp.Audit.{with_entry, AuditTable, write_audit_log, write_audit_log-entries}
use company_erp.Purchase.Input.RequestLines.{create}
use company_erp.Replenishment.Open.{UsageStatus, pending}
use company_erp.Usage.Types.{UsageRequest, UsageInput}
use company_erp.Usage.Scope.{Caller, scoped_project_site_ids, is_outside_scope}
use company_erp.Usage.Input.{normalize_usage_input}
use company_erp.Usage.Issue.{UsageError, validation, conflict, database, map_usage_error}
use company_erp.Usage.Requests.{create_usage, usage_create_data}
use company_erp.Usage.Routes.{Response, created, server_error, thrown_reply, repository}
use company_erp.Usage.Edits.{
  external_body, external_input, sets_status, Desk, usage_entry, logged_reply, create_checked,
  create_in_scope, post_internal, post_external, post_by, post_as, post_usage,
}

-- A status that the caller may set.
abbrev pub PendingIfScoped : Option (List String) → UsageStatus → Type 0
PendingIfScoped none status = Unit
PendingIfScoped (some ids) status = status ≡ pending

in_scope :
    (scope : Option (List String)) (site : Option String)
    → is_outside_scope scope site ≡ false
    → is_outside_scope scope (some (or_else site "")) ≡ false
unfolding is_outside_scope
in_scope none site h = refl
in_scope (some ids) none h = cc
in_scope (some ids) (some s) h = h

sets_status-PendingIfScoped :
    (scope : Option (List String)) (status : Option UsageStatus)
    → sets_status scope status ≡ false
    → PendingIfScoped scope (or_else status pending)
sets_status-PendingIfScoped none status h = tt
sets_status-PendingIfScoped (some ids) none h = refl
sets_status-PendingIfScoped (some ids) (some UsageStatus.pending) h = refl
sets_status-PendingIfScoped (some ids) (some _) h = cc

module _ (U : Table UsageRequest) (A : AuditTable) (audited : Bool) (caller : Option Caller) where
  -- Where the input of a creation comes from: the checked body, or for an external caller the
  -- checked body in the caller's name, for the first of the caller's sites.
  abbrev pub Origin : Json → UsageInput → Type 0
  Origin body input =
      (normalize_usage_input body create ≡ ok input)
      ⊎ ((user : Caller) × (site : String) × (checked : UsageInput) × (normalize_usage_input
              (external_body site body) create
            ≡ ok checked)
          × (input ≡ external_input user site checked))

  -- A row was added for a site of the caller's scope, and pending if there is a scope.
  pub record Submitted (body : Json) (u u' : U.State) (r : UsageRequest) : Type 0 where
    pub input : UsageInput
    pub origin : Origin body input
    pub id : String
    pub fresh : U.find_unique u id ≡ none
    pub made : r ≡ usage_create_data input id
    pub added :
        (j : String) → U.find_unique u' j ≡ ite (String-discrete j id) (some r) (U.find_unique u j)
    pub sited : is_outside_scope (scoped_project_site_ids caller) (some r.project_site_id) ≡ false
    pub waiting : PendingIfScoped (scoped_project_site_ids caller) r.status

  abbrev pub PostEffect :
      Json → Desk U A audited caller → Response × Desk U A audited caller → Type 0
  PostEffect body w (created r, w') =
      Submitted body w.0 w'.0 r
      × (A.entries w'.1
          ≡ with_entry A audited
              (usage_entry U A audited caller "project_usage_request.create" r.id) w.1)
  PostEffect body w (server_error, w') =
      (w' ≡ w) ⊎ ((r : UsageRequest) × Submitted body w.0 w'.0 r × (w'.1 ≡ w.1))
  PostEffect body w (_, w') = w' ≡ w

  refused :
      (body : Json) (w : Desk U A audited caller) (e : UsageError)
      → PostEffect body w (thrown_reply (repository e), w)
  unfolding thrown_reply
  refused body w (validation issues) = refl
  refused body w (conflict field) = refl
  refused body w (database e) = inl refl

  created-Effect :
      (body : Json) (w : Desk U A audited caller) (u' : U.State) (r : UsageRequest)
      → Submitted body w.0 u' r
      → PostEffect body w
          (logged_reply U A audited caller "project_usage_request.create" created r (u', w.1))
  unfolding logged_reply
  created-Effect body w u' r made =
      let note = usage_entry U A audited caller "project_usage_request.create" r.id in
      elim (Option-cases (write_audit_log A audited w.1 note)) [
        | inl failed ↦ rw (failed, logged_reply) (inr (r, made, refl))
        | inr (a', done) ↦
            rw (done, logged_reply) (made, write_audit_log-entries A audited w.1 note a' done)
      ]

  create_checked-Effect :
      (body : Json) (input : UsageInput) (w : Desk U A audited caller)
      → Origin body input
      → is_outside_scope (scoped_project_site_ids caller) input.project_site_id ≡ false
      → sets_status (scoped_project_site_ids caller) input.status ≡ false
      → PostEffect body w (create_checked U A audited caller input w)
  unfolding create_checked create_usage
  create_checked-Effect body input (u, audit) origin inside keeps =
      elim (Result-cases (U.create u (usage_create_data input))) [
        | inl (e, failed) ↦
            rw (create_checked, create_usage, failed) (refused body (u, audit) (map_usage_error e))
        | inr ((id, u'), done) ↦
            rw (create_checked, create_usage, done)
              (created-Effect body (u, audit) u' (usage_create_data input id)
                (record {
                  input = input;
                  origin = origin;
                  id = id;
                  fresh = U.create_fresh u (usage_create_data input) id u' done;
                  made = refl;
                  added = U.find-create u (usage_create_data input) id u' done;
                  sited = in_scope (scoped_project_site_ids caller) input.project_site_id inside;
                  waiting =
                      sets_status-PendingIfScoped (scoped_project_site_ids caller) input.status
                        keeps;
                }))
      ]

  create_in_scope-Effect :
      (body : Json) (input : UsageInput) (w : Desk U A audited caller)
      → Origin body input
      → PostEffect body w (create_in_scope U A audited caller input w)
  unfolding create_in_scope
  create_in_scope-Effect body input w origin =
      let scope = scoped_project_site_ids caller in
      elim (Bool-cases (is_outside_scope scope input.project_site_id)) [
        | inl outside ↦ rw (create_in_scope, outside) refl
        | inr inside ↦ elim (Bool-cases (sets_status scope input.status)) [
          | inl sets ↦ rw (create_in_scope, inside, sets) refl
          | inr keeps ↦
              rw (create_in_scope, inside, keeps)
                (create_checked-Effect body input w origin inside keeps)
        ]
      ]

  post_internal-Effect :
      (body : Json) (w : Desk U A audited caller)
      → PostEffect body w (post_internal U A audited caller body w)
  unfolding post_internal
  post_internal-Effect body w = elim (Result-cases (normalize_usage_input body create)) [
    | inl (issues, bad) ↦ rw (post_internal, bad) refl
    | inr (input, good) ↦ rw (post_internal, good) (create_in_scope-Effect body input w (inl good))
  ]

  post_external-Effect :
      (user : Caller) (site : String) (body : Json) (w : Desk U A audited caller)
      → PostEffect body w (post_external U A audited caller user site body w)
  unfolding post_external
  post_external-Effect user site body w =
      elim (Result-cases (normalize_usage_input (external_body site body) create)) [
        | inl (issues, bad) ↦ rw (post_external, bad) refl
        | inr (input, good) ↦
            rw (post_external, good)
              (create_in_scope-Effect body (external_input user site input) w
                (inr (user, site, input, good, refl)))
      ]

  post_by-Effect :
      (user : Caller) (sites : Option (List String)) (body : Json) (w : Desk U A audited caller)
      → PostEffect body w (post_by U A audited caller user sites body w)
  unfolding post_by
  post_by-Effect user none body w = post_internal-Effect body w
  post_by-Effect user (some []) body w = refl
  post_by-Effect user (some (site ∷ sites)) body w = post_external-Effect user site body w

  post_as-Effect :
      (o : Option Caller) (body : Json) (w : Desk U A audited caller)
      → PostEffect body w (post_as U A audited caller o body w)
  unfolding post_as
  post_as-Effect none body w = post_internal-Effect body w
  post_as-Effect (some user) body w = post_by-Effect user _ body w

  -- Asking for material: a success added one row, from the checked body or in the name of an
  -- external caller, and logged it; an internal error changed nothing, or added the row and logged
  -- nothing; any other response changed nothing. A caller who is confined to project sites only
  -- ever adds a pending request for one of them.
  pub post_usage-Effect :
      (configured : Bool) (body : Json) (w : Desk U A audited caller)
      → PostEffect body w (post_usage U A audited caller configured body w)
  unfolding post_usage
  post_usage-Effect false body w = refl
  post_usage-Effect true body w = post_as-Effect caller body w
