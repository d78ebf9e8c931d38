-- ===== src/Usage/Input/Laws.antt =====
-- What an accepted body of an issue holds.
use company_erp.Base.{
  ◌≡◌, sym, ◌∙◌, subst, ap, suc, ◌≤◌, false, or_else, ok, finish-eq-ok, is_empty, append-eq-nil,
  arith,
}
use company_erp.Base.Json.{Json, obj, get}
use company_erp.Base.Input.{required_string, required_string_ok, positive_number_ok, nullable_date}
use company_erp.Usage.Types.{IssueInput}
use company_erp.Usage.Input.{normalize_issue_input, issue_input_issues, issue_fields, magnitude}

-- A body that is accepted for an issue has a number for the outbound movement and a quantity above
-- zero.
pub normalize_issue_input-IsIssue :
    (body : Json) (input : IssueInput)
    → normalize_issue_input body ≡ ok input
    → (is_empty input.outbound_no ≡ false) × (1 ≤ input.quantity)
unfolding normalize_issue_input issue_input_issues issue_fields
normalize_issue_input-IsIssue (obj ps) input h =
    let (clean, made) = finish-eq-ok (λ is. is) (issue_input_issues ps) (issue_fields ps) h in
    let (numbered, rest) =
      append-eq-nil (required_string (get "outboundNo" ps) "outboundNo").1 _ clean in
    let (date, quantity) =
      append-eq-nil (nullable_date (get "movementDate" ps) "movementDate").1 _ rest in
    let (s, there, full) = required_string_ok (get "outboundNo" ps) "outboundNo" numbered in
    let (n, counted) = positive_number_ok (get "quantity" ps) "quantity" quantity in
    let text : (issue_fields ps).outbound_no ≡ s = ap (λ o. or_else o "") there in
    let number : (issue_fields ps).quantity ≡ suc n = ap (λ o. or_else (magnitude o) 0) counted in
    subst (λ (i : IssueInput). (is_empty i.outbound_no ≡ false) × (1 ≤ i.quantity)) made
      (ap is_empty text ∙ full, subst (λ k. 1 ≤ k) (sym number) (omega arith))
normalize_issue_input-IsIssue _ input h = cc
