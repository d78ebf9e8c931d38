-- ===== src/Usage/Edits/Changes.antt =====
-- What a patch of a usage request has done, by the response.
use company_erp.Base.{
  ◌≡◌, refl, ◌⊎◌, inl, inr, String, Bool, true, false, Option, some, ok, err, ite, String-discrete,
  Result-cases, Option-cases, Bool-cases,
}
use company_erp.Base.Json.{Json}
use company_erp.Database.{
  Table, DbError, unique_violation, foreign_key_violation, record_not_found, failure, updated_row,
}
use company_erp.Audit.{with_entry, AuditTable, write_audit_log, write_audit_log-entries}
use company_erp.Purchase.Input.RequestLines.{update}
use company_erp.Usage.Types.{UsageRequest, UsageInput}
use company_erp.Usage.Scope.{Caller, scoped_project_site_ids, external_project_site_ids}
use company_erp.Usage.Input.{normalize_usage_input}
use company_erp.Usage.Issue.{UsageError, validation, conflict, database, map_usage_error}
use company_erp.Usage.Requests.{update_usage, update_failed, usage_update_data}
use company_erp.Usage.Routes.{Response, success, server_error, thrown_reply, repository}
use company_erp.Usage.Edits.{
  sets_status, moves_outside, is_outside_read, patch_action, Desk, usage_entry, logged_reply,
  patch_checked, patch_in_scope, patch_usage,
}

module _ (U : Table UsageRequest) (A : AuditTable) (audited : Bool) (caller : Option Caller) where
  -- The row was changed as the checked body says, and the caller's scope allowed it: the request
  -- as the handler read it, the site that it moves to and the status that it takes.
  pub record Changed (id : String) (body : Json) (read u u' : U.State) (r : UsageRequest)
      : Type 0 where
    pub input : UsageInput
    pub checked : normalize_usage_input body update ≡ ok input
    pub old : UsageRequest
    pub was : U.find_unique u id ≡ some old
    pub made : r ≡ usage_update_data input old
    pub now :
        (j : String) → U.find_unique u' j ≡ ite (String-discrete j id) (some r) (U.find_unique u j)
    pub read_inside :
        is_outside_read (scoped_project_site_ids caller) (U.find_unique read id) ≡ false
    pub stays_inside : moves_outside (scoped_project_site_ids caller) input.project_site_id ≡ false
    pub stays_pending : sets_status (scoped_project_site_ids caller) input.status ≡ false

  -- The change, and its entry on the trail.
  pub record LoggedChange (id : String) (body : Json) (read : U.State)
      (w w' : Desk U A audited caller) (r : UsageRequest) : Type 0 where
    pub changed : Changed id body read w.0 w'.0 r
    pub trailed :
        A.entries w'.1
        ≡ with_entry A audited
            (usage_entry U A audited caller (patch_action changed.input.status) r.id)
            w.1

  abbrev pub PatchEffect :
      String
      → Json
      → U.State
      → Desk U A audited caller
      → Response × Desk U A audited caller
      → Type 0
  PatchEffect id body read w (success r, w') = LoggedChange id body read w w' r
  PatchEffect id body read w (server_error, w') =
      (w' ≡ w) ⊎ ((r : UsageRequest) × Changed id body read w.0 w'.0 r × (w'.1 ≡ w.1))
  PatchEffect id body read w (_, w') = w' ≡ w

  refused :
      (id : String) (body : Json) (read : U.State) (w : Desk U A audited caller) (e : UsageError)
      → PatchEffect id body read w (thrown_reply (repository e), w)
  unfolding thrown_reply
  refused id body read w (validation issues) = refl
  refused id body read w (conflict field) = refl
  refused id body read w (database e) = inl refl

  Changed-Effect :
      (id : String) (body : Json) (read : U.State) (w : Desk U A audited caller) (u' : U.State)
      (r : UsageRequest) (done : Changed id body read w.0 u' r)
      → PatchEffect id body read w
          (logged_reply U A audited caller (patch_action done.input.status) success r (u', w.1))
  unfolding logged_reply
  Changed-Effect id body read w u' r done =
      let note = usage_entry U A audited caller (patch_action done.input.status) r.id in
      elim (Option-cases (write_audit_log A audited w.1 note)) [
        | inl failed ↦ rw (failed, logged_reply) (inr (r, done, refl))
        | inr (a', written) ↦
            rw (written, logged_reply)
              (record {
                changed = done;
                trailed = write_audit_log-entries A audited w.1 note a' written;
              })
      ]

  failed-Effect :
      (id : String) (body : Json) (read : U.State) (input : UsageInput)
      (w : Desk U A audited caller) (e : DbError)
      → U.update w.0 id (usage_update_data input) ≡ err e
      → PatchEffect id body read w (patch_checked U A audited caller id input w)
  unfolding patch_checked update_usage update_failed
  failed-Effect id body read input w record_not_found h =
      rw (patch_checked, update_usage, h, update_failed) refl
  failed-Effect id body read input w (unique_violation targets) h =
      rw (patch_checked, update_usage, h, update_failed)
        (refused id body read w (map_usage_error (unique_violation targets)))
  failed-Effect id body read input w foreign_key_violation h =
      rw (patch_checked, update_usage, h, update_failed)
        (refused id body read w (map_usage_error foreign_key_violation))
  failed-Effect id body read input w failure h =
      rw (patch_checked, update_usage, h, update_failed)
        (refused id body read w (map_usage_error failure))

  patch_checked-Effect :
      (id : String) (body : Json) (read : U.State) (input : UsageInput)
      (w : Desk U A audited caller)
      → normalize_usage_input body update ≡ ok input
      → is_outside_read (scoped_project_site_ids caller) (U.find_unique read id) ≡ false
      → moves_outside (scoped_project_site_ids caller) input.project_site_id ≡ false
      → sets_status (scoped_project_site_ids caller) input.status ≡ false
      → PatchEffect id body read w (patch_checked U A audited caller id input w)
  unfolding patch_checked update_usage
  patch_checked-Effect id body read input w good inside stays keeps =
      elim (Result-cases (U.update w.0 id (usage_update_data input))) [
        | inl (e, h) ↦ failed-Effect id body read input w e h
        | inr ((r, u'), h) ↦
            let (old, was, made) = updated_row U w.0 id (usage_update_data input) r u' h in
            rw (patch_checked, update_usage, h)
              (Changed-Effect id body read w u' r (record {
                input = input;
                checked = good;
                old = old;
                was = was;
                made = made;
                now = U.find-update w.0 id (usage_update_data input) r u' h;
                read_inside = inside;
                stays_inside = stays;
                stays_pending = keeps;
              }))
      ]

  patch_in_scope-Effect :
      (id : String) (body : Json) (read : U.State) (input : UsageInput)
      (w : Desk U A audited caller)
      → normalize_usage_input body update ≡ ok input
      → PatchEffect id body read w
          (patch_in_scope U A audited caller id input (U.find_unique read id) w)
  unfolding patch_in_scope
  patch_in_scope-Effect id body read input w good =
      let scope = scoped_project_site_ids caller in
      elim (Bool-cases (is_outside_read scope (U.find_unique read id))) [
        | inl outside ↦ rw (patch_in_scope, outside) refl
        | inr inside ↦ elim (Bool-cases (moves_outside scope input.project_site_id)) [
          | inl moves ↦ rw (patch_in_scope, inside, moves) refl
          | inr stays ↦ elim (Bool-cases (sets_status scope input.status)) [
            | inl sets ↦ rw (patch_in_scope, inside, stays, sets) refl
            | inr keeps ↦
                rw (patch_in_scope, inside, stays, keeps)
                  (patch_checked-Effect id body read input w good inside stays keeps)
          ]
        ]
      ]

  -- Patching a request: a success changed the row as the checked body says and logged it; an
  -- internal error changed nothing, or changed the row and logged nothing; any other response
  -- changed nothing. Where the caller is confined to project sites, the request that the handler
  -- read was of one of them and stays with one of them, and its status is not set to anything but
  -- pending.
  pub patch_usage-Effect :
      (configured : Bool) (id : String) (body : Json) (read : U.State) (w : Desk U A audited caller)
      → PatchEffect id body read w (patch_usage U A audited caller configured id body read w)
  unfolding patch_usage
  patch_usage-Effect false id body read w = refl
  patch_usage-Effect true id body read w = elim (Option-cases (external_project_site_ids caller)) [
    | inr (sites, external) ↦ rw (patch_usage, external) refl
    | inl inner ↦ elim (Result-cases (normalize_usage_input body update)) [
      | inl (issues, bad) ↦ rw (patch_usage, inner, bad) refl
      | inr (input, good) ↦
          rw (patch_usage, inner, good) (patch_in_scope-Effect id body read input w good)
    ]
  ]
