-- ===== src/Audit/Model.antt =====
-- A trail held in memory, which never fails.
use company_erp.Base.{sym, some, some_inj, List, ◌∷◌}
use company_erp.Audit.{AuditTable, AuditEntry}

abbrev pub trail : AuditTable
trail = record {
  State = List AuditEntry;
  entries = λ s. s;
  create = λ s e. some (e ∷ s);
  entries-create = λ s e s' h. sym (some_inj (e ∷ s) s' h);
}
