-- ===== src/Inventory/Routes/Effects.antt =====
-- What recording a movement has done, by the response.
use company_erp.Base.{
  ◌≡◌, refl, ◌⊎◌, inl, inr, String, Bool, true, false, Option, none, some, [], ◌∷◌, ok, err,
  Result-cases, Option-cases, List-cases, Bool-cases,
}
use company_erp.Base.Int.{ℤ}
use company_erp.Base.Json.{Json}
use company_erp.Base.Day.{is_day}
use company_erp.Database.{Table, failure}
use company_erp.Audit.{
  with_entry, AuditTable, write_audit_log, write_audit_log-entries, run_in_transaction,
}
use company_erp.Inventory.Types.{MovementInput, Movement, PurchaseLine, Receipt}
use company_erp.Inventory.Input.{normalize_movement_input, truthy}
use company_erp.Inventory.Store.{MovementTable, Lines}
use company_erp.Inventory.Repository.{
  MovementError, number_conflict, missing_reference, database, create_movement, movement_data,
  roll_up_line, map_inventory_error,
}
use company_erp.Inventory.Repository.Receiving.{Received, update_rollup-Received}
use company_erp.Inventory.Routes.{
  Directory, business_issues, Response, created, movement_reply, World, entry, logged_movement,
  record_movement, post_movement,
}

module _ (M : MovementTable) {L : Table PurchaseLine} (N : Lines L) (R : Table Receipt)
    (A : AuditTable) (audited : Bool) (actor : Option String) where
  -- The lines and the records: as they were, or with the line's receipt.
  abbrev pub Receipts : Option String → ℤ → L.State → R.State → L.State → R.State → Type 0
  Receipts none q l r l' r' = (l' ≡ l) × (r' ≡ r)
  Receipts (some id) q l r l' r' = Received N M R id q l r l' r'

  roll_up_line-Receipts :
      (o : Option String) (q : ℤ) (l l' : L.State) (r r' : R.State)
      → roll_up_line M N R o q l r ≡ ok (l', r')
      → Receipts o q l r l' r'
  unfolding roll_up_line
  roll_up_line-Receipts none q l l' r r' h = (cc, cc)
  roll_up_line-Receipts (some id) q l l' r r' h = update_rollup-Received N M R id q l l' r r' h

  -- One movement was added, as the checked body says, and received on the line that it names.
  pub record Recorded (d : Directory) (stamp : String) (body : Json)
      (w w' : World M N R A audited actor) (m : Movement) : Type 0 where
    pub input : MovementInput
    pub checked : normalize_movement_input body ≡ ok input
    pub obeyed : business_issues d input ≡ []
    pub id : String
    pub made : m ≡ movement_data input stamp id
    pub added : M.rows w'.0.0 ≡ m ∷ M.rows w.0.0
    pub dated : is_day input.movement_date ≡ true
    pub receipts :
        Receipts (truthy input.purchase_record_line_id) input.quantity w.0.1 w.0.2 w'.0.1 w'.0.2
    pub trailed : A.entries w'.1 ≡ with_entry A audited (entry M N R A audited actor m.id) w.1

  abbrev pub MovementEffect :
      Directory
      → String
      → Json
      → World M N R A audited actor
      → Response × World M N R A audited actor
      → Type 0
  MovementEffect d stamp body w (created m, w') = Recorded d stamp body w w' m
  MovementEffect d stamp body w (_, w') = w' ≡ w

  create_movement_cases :
      (input : MovementInput) (stamp : String) (m : M.State) (l : L.State) (r : R.State)
      → ((id : String) × (m' : M.State) × (l' : L.State) × (r' : R.State) × (create_movement M N R
              input stamp
              (m, l, r)
            ≡ ok (movement_data input stamp id, (m', l', r')))
          × (M.rows m' ≡ movement_data input stamp id ∷ M.rows m)
          × (is_day input.movement_date ≡ true)
          × Receipts (truthy input.purchase_record_line_id) input.quantity l r l' r')
        ⊎ ((e : MovementError) × (create_movement M N R input stamp (m, l, r) ≡ err e))
  unfolding create_movement
  create_movement_cases input stamp m l r = elim (Bool-cases (is_day input.movement_date)) [
    | inr undated ↦ inr (database failure, rw (undated, create_movement) refl)
    | inl dated ↦ elim (Result-cases (M.create m (movement_data input stamp))) [
      | inl (e, failed) ↦ inr (map_inventory_error e, rw (dated, create_movement, failed) refl)
      | inr ((id, m'), done) ↦
          elim (Result-cases
            (roll_up_line M N R (truthy input.purchase_record_line_id) input.quantity l r)) [
              | inl (e, failed) ↦
                  inr (map_inventory_error e, rw (dated, create_movement, done, failed) refl)
              | inr ((l', r'), rolled) ↦ inl (
                id,
                m',
                l',
                r',
                rw (dated, create_movement, done, rolled) refl,
                M.rows-create m (movement_data input stamp) id m' done,
                dated,
                roll_up_line-Receipts (truthy input.purchase_record_line_id) input.quantity l l' r
                    r' rolled,
              )
            ]
    ]
  ]

  refused :
      (d : Directory) (stamp : String) (body : Json) (input : MovementInput)
      (w : World M N R A audited actor) (e : MovementError)
      → create_movement M N R input stamp w.0 ≡ err e
      → MovementEffect d stamp body w (record_movement M N R A audited actor input stamp w)
  unfolding record_movement logged_movement run_in_transaction movement_reply
  refused d stamp body input w number_conflict h =
      rw (h, record_movement, logged_movement, run_in_transaction) refl
  refused d stamp body input w missing_reference h =
      rw (h, record_movement, logged_movement, run_in_transaction) refl
  refused d stamp body input w (database e) h =
      rw (h, record_movement, logged_movement, run_in_transaction) refl

  record_movement-Effect :
      (d : Directory) (stamp : String) (body : Json) (input : MovementInput)
      (w : World M N R A audited actor)
      → normalize_movement_input body ≡ ok input
      → business_issues d input ≡ []
      → MovementEffect d stamp body w (record_movement M N R A audited actor input stamp w)
  unfolding record_movement logged_movement run_in_transaction movement_reply
  record_movement-Effect d stamp body input w good obeyed =
      elim (create_movement_cases input stamp w.0.0 w.0.1 w.0.2) [
        | inr (e, h) ↦ refused d stamp body input w e h
        | inl (id, m', l', r', e, added, dated, receipts) ↦
            let row = movement_data input stamp id in
            let note = entry M N R A audited actor row.id in
            elim (Option-cases (write_audit_log A audited w.1 note)) [
              | inl failed ↦
                  rw (e, record_movement, logged_movement, run_in_transaction, failed) refl
              | inr (a', done) ↦
                  rw (e, record_movement, logged_movement, run_in_transaction, done)
                    (record {
                      input = input;
                      checked = good;
                      obeyed = obeyed;
                      id = id;
                      made = refl;
                      added = added;
                      dated = dated;
                      receipts = receipts;
                      trailed = write_audit_log-entries A audited w.1 note a' done;
                    })
            ]
      ]

  -- Recording a movement: a success, which only a body with a valid date has, adds exactly the row
  -- that the checked body and the business rules allow, receives its quantity on the purchase record line that it names, where it names
  -- one, and logs it; any other response leaves movements, lines, records and trail as they were.
  pub post_movement-Effect :
      (configured : Bool) (d : Directory) (stamp : String) (body : Json)
      (w : World M N R A audited actor)
      → MovementEffect d stamp body w
          (post_movement M N R A audited actor configured d stamp body w)
  unfolding post_movement
  post_movement-Effect false d stamp body w = refl
  post_movement-Effect true d stamp body w = elim (Result-cases (normalize_movement_input body)) [
    | inl (issues, bad) ↦ rw (bad, post_movement) refl
    | inr (input, good) ↦ elim (List-cases (business_issues d input)) [
      | inl none_found ↦
          rw (good, post_movement, none_found)
            (record_movement-Effect d stamp body input w good none_found)
      | inr (i, is, found) ↦ rw (good, post_movement, found) refl
    ]
  ]
