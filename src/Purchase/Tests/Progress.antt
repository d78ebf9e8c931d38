-- ===== src/Purchase/Tests/Progress.antt =====
-- A draft that is submitted and approved.
use company_erp.Base.{◌≡◌, refl, true, none, some, ◌∷◌, [], List, absent, String-discrete}
use company_erp.Base.Json.{undefined}
use company_erp.Database.Model.{Rows, put}
use company_erp.Audit.{AuditEntry, write_audit_log}
use company_erp.Purchase.Status.{RequestStatus-discrete, draft, pending_purchase}
use company_erp.Purchase.Data.{PurchaseRequest, ReviewInput}
use company_erp.Purchase.Input.{normalize_review_input}
use company_erp.Purchase.Repository.{submit_data, review_data}
use company_erp.Purchase.Handlers.{World, success, submit_request, approve_request}
use company_erp.Purchase.Handlers.Progress.{submit_request-approve_request}
use company_erp.Purchase.Tests.{pending, table, trail, nobody}

abbrev drafted : PurchaseRequest
drafted = record pending { status = draft }

abbrev start : World table trail true nobody
start = (put (λ j. none) "r1" drafted, [])

abbrev unchecked : ReviewInput
unchecked = record {
  reviewed_by_employee_id = absent;
  reviewed_by_name = absent;
  review_remark = absent;
}

abbrev sent : Rows PurchaseRequest
sent = put start.0 "r1" (submit_data 1000 drafted)

abbrev seen : Rows PurchaseRequest
seen = put sent "r1" (review_data pending_purchase 2000 unchecked (submit_data 1000 drafted))

submit_request-approve_request_example :
    (a b : List AuditEntry) × (q : PurchaseRequest) × (submit_request table trail true nobody true
        "r1" 1000 start.0 start
      ≡ (success (submit_data 1000 drafted), (sent, a)))
    × (approve_request table trail true nobody true "r1" 2000 undefined sent (sent, a)
        ≡ (success q, (seen, b)))
    × (seen "r1" ≡ some q)
    × (q.status ≡ pending_purchase)
unfolding write_audit_log normalize_review_input String-discrete RequestStatus-discrete submit_data
submit_request-approve_request_example =
    submit_request-approve_request table trail true nobody "r1" 1000 2000 undefined unchecked start
      drafted sent seen (λ s e. (e ∷ s, refl)) refl refl refl (1, refl) (1, refl)
