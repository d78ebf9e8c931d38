-- ===== src/Inventory/Repository/Receiving.antt =====
-- What `updatePurchaseReceivingRollup` does to the lines and the record of a purchase.
use company_erp.Base.{
  ◌≡◌, refl, ap, ◌∙◌, subst, inl, inr, String, Bool, true, false, ◌&&◌, some, List, ok, err,
  ite_self, ite_other, Result-cases, ok_pair,
}
use company_erp.Base.Int.{ℤ, ◌+ℤ◌}
use company_erp.Base.Double.{nought, less, at_most, stored}
use company_erp.Purchase.Status.{RecordStatus, partially_received}
use company_erp.Database.{Table, DbError, updated_row}
use company_erp.Inventory.Types.{PurchaseLine, Receipt}
use company_erp.Inventory.Store.{Lines, lines_of, MovementTable}
use company_erp.Inventory.Repository.{
  purchased_total, received_total, rolled_up, receive, update_rollup,
}

-- What the receipt of a record with these lines is: the received sum as the column keeps it, and
-- received where the lines have purchased something and received at least as much.
pub record SumsUp (lines : List PurchaseLine) (t : Receipt) : Type 0 where
  pub quantity : t.received_quantity ≡ stored (received_total lines)
  pub complete :
      less nought (purchased_total lines) ≡ true
      → at_most (purchased_total lines) (received_total lines) ≡ true
      → t.status ≡ RecordStatus.received
  pub nothing_purchased :
      less nought (purchased_total lines) ≡ false → t.status ≡ partially_received
  pub incomplete :
      at_most (purchased_total lines) (received_total lines) ≡ false → t.status ≡ partially_received

and_false : (a : Bool) → a && false ≡ false
and_false true = refl
and_false false = refl

rolled_up-SumsUp : (lines : List PurchaseLine) → SumsUp lines (rolled_up lines)
unfolding rolled_up
rolled_up-SumsUp lines = record {
  quantity = refl;
  complete = λ e h. rw (e, h) refl;
  nothing_purchased = λ e. rw e refl;
  incomplete = λ e. rw (e, and_false (less nought (purchased_total lines))) refl;
}

module _ {L : Table PurchaseLine} (N : Lines L) where
  purchased_same :
      (q : ℤ) (old : PurchaseLine) → (receive q old).purchase_record_id ≡ old.purchase_record_id
  unfolding receive
  purchased_same q old = refl

receive-gained :
    (q : ℤ) (old : PurchaseLine) → (receive q old).received_quantity ≡ old.received_quantity +ℤ q
unfolding receive
receive-gained q old = refl

receive-purchased :
    (q : ℤ) (old : PurchaseLine) → (receive q old).purchase_quantity ≡ old.purchase_quantity
unfolding receive
receive-purchased q old = refl

module _ {L : Table PurchaseLine} (N : Lines L) (M : MovementTable) (R : Table Receipt) where
  -- One line received the quantity, and its record is what its lines add up to.
  pub record Received (id : String) (q : ℤ) (l : L.State) (r : R.State) (l' : L.State)
      (r' : R.State) : Type 0 where
    pub old : PurchaseLine
    pub was : L.find_unique l id ≡ some old
    pub now : L.find_unique l' id ≡ some (receive q old)
    pub other_lines : (j : String) → ¬ (j ≡ id) → L.find_unique l' j ≡ L.find_unique l j
    pub gained : (receive q old).received_quantity ≡ old.received_quantity +ℤ q
    pub same_purchase : (receive q old).purchase_quantity ≡ old.purchase_quantity
    pub same_lines : N.ids l' old.purchase_record_id ≡ N.ids l old.purchase_record_id
    pub receipt : Receipt
    pub receipt_there : R.find_unique r' old.purchase_record_id ≡ some receipt
    pub sums_up : SumsUp (lines_of N l' old.purchase_record_id) receipt
    pub other_records :
        (j : String) → ¬ (j ≡ old.purchase_record_id) → R.find_unique r' j ≡ R.find_unique r j

  received :
      (id : String) (q : ℤ) (l l' : L.State) (r r' : R.State) (old line : PurchaseLine)
      (row : Receipt)
      → L.find_unique l id ≡ some old
      → line ≡ receive q old
      → L.update l id (receive q) ≡ ok (line, l')
      → R.update r line.purchase_record_id (λ o. rolled_up (lines_of N l' line.purchase_record_id))
        ≡ ok (row, r')
      → Received id q l r l' r'
  received id q l l' r r' old line row was made done set =
      let same : line.purchase_record_id ≡ old.purchase_record_id =
        rw made (purchased_same N q old) in
      let set' =
        subst (λ k. R.update r k (λ o. rolled_up (lines_of N l' k)) ≡ ok (row, r')) same set in
      let key = old.purchase_record_id in
      let totals = rolled_up (lines_of N l' key) in
      let (o, _, became) = updated_row R r key (λ o. totals) row r' set' in
      record {
        old = old;
        was = was;
        now = L.find-update l id (receive q) line l' done id ∙ ite_self id _ _ ∙ ap some made;
        other_lines = λ j ne. L.find-update l id (receive q) line l' done j ∙ ite_other j id _ _ ne;
        gained = receive-gained q old;
        same_purchase = receive-purchased q old;
        same_lines = N.ids-update l id (receive q) line l' done (purchased_same N q) key;
        receipt = totals;
        receipt_there = R.find-update r key _ row r' set' key ∙ ite_self key _ _ ∙ ap some became;
        sums_up = rolled_up-SumsUp (lines_of N l' key);
        other_records = λ j ne. R.find-update r key _ row r' set' j ∙ ite_other j key _ _ ne;
      }

  rollup_failed :
      (id : String) (q : ℤ) (l : L.State) (r : R.State) (e : DbError)
      → L.update l id (receive q) ≡ err e
      → update_rollup M N R id q l r ≡ err e
  unfolding update_rollup
  rollup_failed id q l r e failed = rw (failed, update_rollup) refl

  rollup_unset :
      (id : String) (q : ℤ) (l l1 : L.State) (r : R.State) (line : PurchaseLine) (e : DbError)
      → L.update l id (receive q) ≡ ok (line, l1)
      → L.find_unique l1 id ≡ some line
      → R.update r line.purchase_record_id (λ o. rolled_up (lines_of N l1 line.purchase_record_id))
        ≡ err e
      → update_rollup M N R id q l r ≡ err e
  unfolding update_rollup
  rollup_unset id q l l1 r line e done there failed = rw (done, update_rollup, there, failed) refl

  rollup_set :
      (id : String) (q : ℤ) (l l1 : L.State) (r r1 : R.State) (line : PurchaseLine) (row : Receipt)
      → L.update l id (receive q) ≡ ok (line, l1)
      → L.find_unique l1 id ≡ some line
      → R.update r line.purchase_record_id (λ o. rolled_up (lines_of N l1 line.purchase_record_id))
        ≡ ok (row, r1)
      → update_rollup M N R id q l r ≡ ok (l1, r1)
  unfolding update_rollup
  rollup_set id q l l1 r r1 line row done there set = rw (done, update_rollup, there, set) refl

  -- A rollup that succeeds added the quantity to the line, and its record, which has the same lines,
  -- then holds the sum, as doubles in their order, of what they received, and is received if they
  -- purchased something and that sum covers it, else partially received; no other line or record
  -- changed.
  pub update_rollup-Received :
      (id : String) (q : ℤ) (l l' : L.State) (r r' : R.State)
      → update_rollup M N R id q l r ≡ ok (l', r')
      → Received id q l r l' r'
  update_rollup-Received id q l l' r r' h = elim (Result-cases (L.update l id (receive q))) [
    | inl (e, failed) ↦ cc (rollup_failed id q l r e failed)
    | inr ((line, l1), done) ↦
        let (old, was, made) = updated_row L l id (receive q) line l1 done in
        let there = L.find-update l id (receive q) line l1 done id ∙ ite_self id _ _ in
        elim (Result-cases (
          R.update r line.purchase_record_id
            (λ o. rolled_up (lines_of N l1 line.purchase_record_id)))) [
              | inl (e, failed) ↦ cc (rollup_unset id q l l1 r line e done there failed)
              | inr ((row, r1), set) ↦
                  let (same_lines, same_records) =
                    ok_pair (update_rollup M N R id q l r) l1 l' r1 r'
                      (rollup_set id q l l1 r r1 line row done there set) h in
                  subst (λ s. Received id q l r s r') same_lines
                    (subst (λ s. Received id q l r l1 s) same_records
                      (received id q l l1 r r1 old line row was made done set))
            ]
  ]
