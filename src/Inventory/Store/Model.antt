-- ===== src/Inventory/Store/Model.antt =====
-- Movements held in memory, and a purchase record with one line.
use company_erp.Base.{◌≡◌, ap, ◌∙◌, String, List, [], ◌∷◌, ok, arith, ite, String-discrete}
use company_erp.Database.{Table}
use company_erp.Database.Model.{single}
use company_erp.Inventory.Types.{Movement, PurchaseLine}
use company_erp.Inventory.Store.{MovementTable, Lines}

abbrev pub movements : MovementTable
movements = record {
  State = List Movement;
  rows = λ s. s;
  create = λ s new. ok ("m1", new "m1" ∷ s);
  rows-create = λ s new id s' h. ground arith;
}

abbrev line_table : Table PurchaseLine
line_table = single "l1"

abbrev ids : PurchaseLine → String → List String
ids s record_id = ite (String-discrete record_id s.purchase_record_id) ("l1" ∷ []) []

updated_single :
    (s : PurchaseLine) (id : String) (f : PurchaseLine → PurchaseLine) (r s' : PurchaseLine)
    → line_table.update s id f ≡ ok (r, s')
    → s' ≡ f s
updated_single s id f r s' h = ground arith

pub ids_kept :
    (s : PurchaseLine) (id : String) (f : PurchaseLine → PurchaseLine) (r s' : PurchaseLine)
    → line_table.update s id f ≡ ok (r, s')
    → ((o : PurchaseLine) → (f o).purchase_record_id ≡ o.purchase_record_id)
    → (record_id : String) → ids s' record_id ≡ ids s record_id
ids_kept s id f r s' h keeps record_id =
    ap (λ k. ite (String-discrete record_id k) ("l1" ∷ []) [])
      (ap (λ (l : PurchaseLine). l.purchase_record_id) (updated_single s id f r s' h) ∙ keeps s)

abbrev pub one_line : Lines line_table
one_line = record {
  ids = ids;
  ids-update = λ s id f r s' h keeps record_id. ids_kept s id f r s' h keeps record_id;
}
