-- ===== src/Usage/Routes/Effects.antt =====
-- What the issue route has done, by the response.
use company_erp.Base.{
  ◌≡◌, refl, ap, subst, inl, inr, String, Bool, true, false, Option, none, some, ok, err,
  Result-cases, Option-cases,
}
use company_erp.Base.Json.{Json}
use company_erp.Database.{Table, Ledger}
use company_erp.Audit.{
  with_entry, AuditTable, write_audit_log, write_audit_log-entries, run_in_transaction,
}
use company_erp.Usage.Types.{Site, Material, UsageRequest, StockMovement, IssueInput}
use company_erp.Usage.Input.{normalize_issue_input}
use company_erp.Usage.Issue.{UsageError, validation, conflict, database, issue, Stores}
use company_erp.Usage.Issue.Effects.{Issued, IssueEffect, issue-Effect}
use company_erp.Usage.Routes.{
  Response, created, World, entry, thrown_reply, issue_reply, logged_result, logged_issue,
  issue_route, post_issue,
}

module _ (U : Table UsageRequest) (M : Ledger StockMovement) (site_of : String → Site)
    (material_of : String → Option Material) (A : AuditTable) (audited : Bool)
    (actor : Option String) where
  -- The request was issued as the checked body says, and the issue is on the trail.
  pub record Logged (id : String) (body : Json)
      (w w' : World U M site_of material_of A audited actor) (r : UsageRequest) : Type 0 where
    pub input : IssueInput
    pub checked : normalize_issue_input body ≡ ok input
    pub issued : Issued U M site_of material_of id input w.0 w'.0 r
    pub trailed :
        A.entries w'.1
        ≡ with_entry A audited (entry U M site_of material_of A audited actor r.id) w.1

  abbrev pub RouteEffect :
      String
      → Json
      → World U M site_of material_of A audited actor
      → Response × World U M site_of material_of A audited actor
      → Type 0
  RouteEffect id body w (created r, w') = Logged id body w w' r
  RouteEffect id body w (_, w') = w' ≡ w

  refused :
      (id : String) (body : Json) (input : IssueInput)
      (w : World U M site_of material_of A audited actor) (e : UsageError)
      → issue U M site_of material_of id input w.0 ≡ err e
      → RouteEffect id body w (issue_route U M site_of material_of A audited actor id input w)
  unfolding issue_route logged_issue run_in_transaction issue_reply thrown_reply
  refused id body input w (validation issues) h =
      rw (h, issue_route, logged_issue, run_in_transaction) refl
  refused id body input w (conflict field) h =
      rw (h, issue_route, logged_issue, run_in_transaction) refl
  refused id body input w (database e) h =
      rw (h, issue_route, logged_issue, run_in_transaction) refl

  returned :
      (id : String) (body : Json) (input : IssueInput)
      (w : World U M site_of material_of A audited actor) (o : Option UsageRequest)
      (s' : Stores U M site_of material_of)
      → normalize_issue_input body ≡ ok input
      → issue U M site_of material_of id input w.0 ≡ ok (o, s')
      → IssueEffect U M site_of material_of id input w.0 (ok (o, s'))
      → RouteEffect id body w (issue_route U M site_of material_of A audited actor id input w)
  unfolding issue_route logged_issue logged_result run_in_transaction issue_reply thrown_reply
  returned id body input w none s' good h (same, missing) =
      rw (h, issue_route, logged_issue, run_in_transaction) (ap (λ s. (s, w.1)) same)
  returned id body input w (some r) s' good h done =
      let note = entry U M site_of material_of A audited actor r.id in
      elim (Option-cases (write_audit_log A audited w.1 note)) [
        | inl failed ↦
            rw (h, issue_route, logged_issue, run_in_transaction, logged_result, failed) refl
        | inr (a', written) ↦
            rw (h, issue_route, logged_issue, run_in_transaction, logged_result, written)
              (record {
                input = input;
                checked = good;
                issued = done;
                trailed = write_audit_log-entries A audited w.1 note a' written;
              })
      ]

  issue_route-Effect :
      (id : String) (body : Json) (input : IssueInput)
      (w : World U M site_of material_of A audited actor)
      → normalize_issue_input body ≡ ok input
      → RouteEffect id body w (issue_route U M site_of material_of A audited actor id input w)
  issue_route-Effect id body input w good =
      elim (Result-cases (issue U M site_of material_of id input w.0)) [
        | inl (e, h) ↦ refused id body input w e h
        | inr ((o, s'), h) ↦ returned id body input w o s' good h (
            subst (IssueEffect U M site_of material_of id input w.0) h
              (issue-Effect U M site_of material_of id input w.0))
      ]

  -- The issue route: a success issued exactly the request that was asked for, which was open, by a
  -- quantity within what was left of it and within the stock, with one movement and the charge of
  -- that quantity, and logged it; any other response left requests, movements and trail as they
  -- were.
  pub post_issue-Effect :
      (configured : Bool) (id : String) (body : Json)
      (w : World U M site_of material_of A audited actor)
      → RouteEffect id body w
          (post_issue U M site_of material_of A audited actor configured id body w)
  unfolding post_issue
  post_issue-Effect false id body w = refl
  post_issue-Effect true id body w = elim (Result-cases (normalize_issue_input body)) [
    | inl (issues, bad) ↦ rw (bad, post_issue) refl
    | inr (input, good) ↦ rw (good, post_issue) (issue_route-Effect id body input w good)
  ]
