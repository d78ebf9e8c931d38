-- ===== src/Purchase/Handlers/Commit.antt =====
-- The transaction of the purchase request routes: the repository's call, and the entry for the
-- trail, which stand or fall together.
use company_erp.Base.{
  ◌≡◌, ◌⊎◌, inl, inr, String, Bool, Option, none, some, Result, ok, err, Option-cases, arith,
}
use company_erp.Database.{Table}
use company_erp.Audit.{AuditTable, AuditEntry, write_audit_log, run_in_transaction}
use company_erp.Purchase.Data.{PurchaseRequest}
use company_erp.Purchase.Repository.{RepositoryError}
use company_erp.Purchase.Handlers.{World, repository, audit_write, commit, logged}

module _ (T : Table PurchaseRequest) (A : AuditTable) (audited : Bool) (actor : Option String) where
  abbrev pub entry : String → String → AuditEntry
  entry action id = record {
    actor_user_id = actor;
    action = action;
    entity_type = "purchase_request";
    entity_id = some id;
  }

  -- The three ways in which a logged call ends.
  pub commit_cases :
      (action : String) (call : T.State → Result RepositoryError (Option PurchaseRequest × T.State))
      (w : World T A audited actor)
      → (r : PurchaseRequest) (s' : T.State) → call w.0 ≡ ok (some r, s')
      → ((a' : A.State) × (commit T A audited actor action call w ≡ (ok (some r), (s', a')))
          × (write_audit_log A audited w.1 (entry action r.id) ≡ some a'))
        ⊎ (commit T A audited actor action call w ≡ (err audit_write, w))
  unfolding commit logged run_in_transaction
  commit_cases action call w r s' e =
      elim (Option-cases (write_audit_log A audited w.1 (entry action r.id))) [
        | inl failed ↦ inr (ground arith)
        | inr (a', done) ↦ inl (a', ground arith, done)
      ]

  pub commit-err :
      (action : String) (call : T.State → Result RepositoryError (Option PurchaseRequest × T.State))
      (w : World T A audited actor) (x : RepositoryError)
      → call w.0 ≡ err x
      → commit T A audited actor action call w ≡ (err (repository x), w)
  unfolding commit logged run_in_transaction
  commit-err action call w x e = ground arith

  pub commit-none :
      (action : String) (call : T.State → Result RepositoryError (Option PurchaseRequest × T.State))
      (w : World T A audited actor)
      → call w.0 ≡ ok (none, w.0)
      → commit T A audited actor action call w ≡ (ok none, w)
  unfolding commit logged run_in_transaction
  commit-none action call w e = ground arith
