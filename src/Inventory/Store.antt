-- ===== src/Inventory/Store.antt =====
-- The tables that a movement touches, as Prisma's client gives them: the movements, and the
-- relation that fetches all lines of one purchase record. Both are parameters with laws.
pub mod Model
use company_erp.Base.{
  ◌≡◌, String, Option, none, some, List, [], ◌∷◌, Result, ok, ite, String-discrete,
}
use company_erp.Base.Int.{ℤ, pos, ◌+ℤ◌}
use company_erp.Database.{Table, Ledger, DbError}
use company_erp.Inventory.Types.{Movement, PurchaseLine}

abbrev pub MovementTable : Type 1
MovementTable = Ledger Movement

-- The ids of the lines of a record. An update that keeps a line's record keeps them.
pub record Lines (L : Table PurchaseLine) : Type 1 where
  pub ids : L.State → String → List String
  pub ids-update :
      (s : L.State) (id : String) (f : PurchaseLine → PurchaseLine) (r : PurchaseLine)
      (s' : L.State)
      → L.update s id f ≡ ok (r, s')
      → ((o : PurchaseLine) → (f o).purchase_record_id ≡ o.purchase_record_id)
      → (record_id : String) → ids s' record_id ≡ ids s record_id

module _ {L : Table PurchaseLine} (N : Lines L) where
  -- The lines of a record, as `include` fetches them.
  unfoldable pub fetched : L.State → List String → List PurchaseLine
  fetched s [] = []
  fetched s (id ∷ ids) = elim (L.find_unique s id) [
    | none ↦ fetched s ids
    | some r ↦ r ∷ fetched s ids
  ]

  unfoldable pub lines_of : L.State → String → List PurchaseLine
  unfolding fetched
  lines_of s record_id = fetched s (N.ids s record_id)
