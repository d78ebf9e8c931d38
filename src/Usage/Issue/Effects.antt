-- ===== src/Usage/Issue/Effects.antt =====
-- What an issue has done, by its result.
use company_erp.Base.{
  ◌≡◌, refl, sym, subst, inl, inr, ℕ, String, Bool, if◌then◌else◌, true, false, Option, none, some,
  [], ◌∷◌, Result, ok, err, ite, String-discrete, Bool-cases, Option-cases, Result-cases,
  List-cases,
}
use company_erp.Base.Int.{ℤ}
use company_erp.Base.Double.{less, at_most}
use company_erp.Base.Day.{is_day}
use company_erp.Replenishment.Open.{issued, partially_issued}
use company_erp.Database.{Table, Ledger}
use company_erp.Usage.Types.{Site, Material, UsageRequest, StockMovement, IssueInput}
use company_erp.Usage.Issue.{
  UsageError, ChargeSnapshot, to_number, to_signed_number, column_of, input_number, next_issued,
  remaining, current_stock, charge_snapshot, target_quantity, issue_movement, issued_data,
  is_closed, issue_issues, Stores, issue_open, issue,
}

-- The checks pass on an open request, within what is left of it and within the stock.
pub record Allowed (r : UsageRequest) (stock : ℤ) (quantity : ℕ) : Type 0 where
  pub is_open : is_closed r.status ≡ false
  pub within_target : less (remaining r) (input_number quantity) ≡ false
  pub within_stock : less (to_signed_number stock) (input_number quantity) ≡ false

-- Three tests in a row that find nothing have all failed.
tests_failed :
    (a b c : Bool) (x y z : String)
    → (if a then x ∷ [] else if b then y ∷ [] else if c then z ∷ [] else []) ≡ []
    → (a ≡ false) × (b ≡ false) × (c ≡ false)
tests_failed true b c x y z h = cc
tests_failed false true c x y z h = cc
tests_failed false false true x y z h = cc
tests_failed false false false x y z h = (refl, refl, refl)

issue_issues-Allowed :
    (r : UsageRequest) (stock : ℤ) (quantity : ℕ)
    → issue_issues r stock quantity ≡ []
    → Allowed r stock quantity
unfolding issue_issues
issue_issues-Allowed r stock quantity h =
    let (opened, within, stocked) =
      tests_failed (is_closed r.status) (less (remaining r) (input_number quantity))
        (less (to_signed_number stock) (input_number quantity)) _ _ _ h in
    record { is_open = opened; within_target = within; within_stock = stocked }

-- What the row of the request then says: the quantity as the column keeps the sum, and issued
-- where the sum reaches the target, else partially issued.
pub record Booked (old : UsageRequest) (input : IssueInput) (r : UsageRequest) : Type 0 where
  pub written : (charge : ChargeSnapshot) × (r ≡ issued_data old charge input old)
  pub quantity : r.issued_quantity ≡ column_of (next_issued old input.quantity)
  pub full :
      at_most (to_number (target_quantity old)) (next_issued old input.quantity) ≡ true
      → r.status ≡ issued
  pub part :
      at_most (to_number (target_quantity old)) (next_issued old input.quantity) ≡ false
      → r.status ≡ partially_issued
  pub numbered : r.outbound_no ≡ some input.outbound_no
  pub same_target : target_quantity r ≡ target_quantity old

issued_data-Booked :
    (old : UsageRequest) (charge : ChargeSnapshot) (input : IssueInput)
    → Booked old input (issued_data old charge input old)
unfolding issued_data
issued_data-Booked old charge input = record {
  written = (charge, refl);
  quantity = refl;
  full = λ e. rw e refl;
  part = λ e. rw e refl;
  numbered = refl;
  same_target = refl;
}

module _ (U : Table UsageRequest) (M : Ledger StockMovement) (site_of : String → Site)
    (material_of : String → Option Material) where
  -- The request was open and is issued by the quantity, and one movement takes it from the stock.
  pub record Issued (id : String) (input : IssueInput) (s s' : Stores U M site_of material_of)
      (r : UsageRequest) : Type 0 where
    pub old : UsageRequest
    pub was : U.find_unique s.0 id ≡ some old
    pub allowed :
        Allowed old (current_stock (M.rows s.1) old.warehouse_id old.material_id) input.quantity
    pub made :
        r ≡ issued_data old (charge_snapshot (material_of old.material_id) input.quantity) input old
    pub booked : Booked old input r
    pub dated : is_day input.movement_date ≡ true
    pub now :
        (j : String)
        → U.find_unique s'.0 j ≡ ite (String-discrete j id) (some r) (U.find_unique s.0 j)
    pub movement_id : String
    pub moved :
        M.rows s'.1
        ≡ issue_movement old
            (site_of old.project_site_id)
            (charge_snapshot (material_of old.material_id) input.quantity)
            input
            movement_id
          ∷ M.rows s.1

  -- What `issue` returns: nothing where there is no such request, the request as issued, or a throw.
  abbrev pub IssueEffect :
      String
      → IssueInput
      → Stores U M site_of material_of
      → Result UsageError (Option UsageRequest × Stores U M site_of material_of)
      → Type 0
  IssueEffect id input s (ok (none, s')) = (s' ≡ s) × (U.find_unique s.0 id ≡ none)
  IssueEffect id input s (ok (some r, s')) = Issued id input s s' r
  IssueEffect id input s (err e) = Unit

  issue_open-Effect :
      (id : String) (input : IssueInput) (u : U.State) (m : M.State) (r : UsageRequest)
      → U.find_unique u id ≡ some r
      → Allowed r (current_stock (M.rows m) r.warehouse_id r.material_id) input.quantity
      → IssueEffect id input (u, m) (issue_open U M site_of material_of id r input (u, m))
  unfolding issue_open
  issue_open-Effect id input u m r was allowed =
      let charge = charge_snapshot (material_of r.material_id) input.quantity in
      let new = issue_movement r (site_of r.project_site_id) charge input in
      let change = issued_data r charge input in
      elim (Bool-cases (is_day input.movement_date)) [
        | inr undated ↦ rw (undated, issue_open) tt
        | inl dated ↦ elim (Result-cases (M.create m new)) [
          | inl (e, failed) ↦ rw (dated, issue_open, failed) tt
          | inr ((movement_id, m'), created) ↦ elim (Result-cases (U.update u id change)) [
            | inl (e, failed) ↦ rw (dated, issue_open, created, failed) tt
            | inr ((r', u'), updated) ↦
                let made = U.update_row u id change r r' u' was updated in
                rw (dated, issue_open, created, updated)
                  (record {
                    old = r;
                    was = was;
                    allowed = allowed;
                    made = made;
                    booked = subst (Booked r input) (sym made) (issued_data-Booked r charge input);
                    dated = dated;
                    now = U.find-update u id change r' u' updated;
                    movement_id = movement_id;
                    moved = M.rows-create m new movement_id m' created;
                  })
          ]
        ]
      ]

  pub issue-Effect :
      (id : String) (input : IssueInput) (s : Stores U M site_of material_of)
      → IssueEffect id input s (issue U M site_of material_of id input s)
  unfolding issue
  issue-Effect id input (u, m) = elim (Option-cases (U.find_unique u id)) [
    | inl missing ↦ rw (missing, issue) (refl, missing)
    | inr (r, there) ↦
        elim (List-cases
          (issue_issues r (current_stock (M.rows m) r.warehouse_id r.material_id) input.quantity)) [
            | inr (i, is, found) ↦ rw (there, issue, found) tt
            | inl passed ↦
                rw (there, issue, passed)
                  (issue_open-Effect id input u m r there (issue_issues-Allowed r _ _ passed))
          ]
  ]
