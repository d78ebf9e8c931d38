-- ===== src/Audit.antt =====
-- The audit trail that the routes write (apps/api/src/appRouteContext.ts), and the transaction in
-- which they change data and write it. What is logged is kept without the JSON of the row.
pub mod Model
use company_erp.Base.{
  ap, sym, some_inj, false, ◌≡◌, Bool, true, String, Option, some, List, ◌∷◌, Result, ok, err,
  if◌then◌else◌,
}

pub record AuditEntry : Type 0 where
  pub actor_user_id : Option String
  pub action : String
  pub entity_type : String
  pub entity_id : Option String

-- The audit repository, which may fail (`none`); a success adds the entry and nothing else.
pub record AuditTable : Type 1 where
  pub State : Type 0
  pub entries : State → List AuditEntry
  pub create : State → AuditEntry → Option State
  pub entries-create :
      (s : State) (e : AuditEntry) (s' : State) → create s e ≡ some s' → entries s' ≡ e ∷ entries s

-- `writeAuditLog`: nothing is written where no audit repository is configured, and `none` is the
-- `AuditLogWriteError`.
module _ (A : AuditTable) (configured : Bool) where
  unfoldable pub write_audit_log : A.State → AuditEntry → Option A.State
  write_audit_log s e = if configured then A.create s e else some s

-- `runWithAuditTransaction` over `prisma.$transaction`: what the callback did is kept if it
-- returns, and undone if it throws.
unfoldable pub run_in_transaction {ℓ κ ι} :
    {S : Type ℓ} {E : Type κ} {A : Type ι} → (S → Result E (A × S)) → S → Result E A × S
run_in_transaction callback s = elim (callback s) [ ok (a, s') ↦ (ok a, s') | err e ↦ (err e, s) ]

module _ (A : AuditTable) where
  -- The trail with the entry on it, where auditing is configured.
  abbrev pub with_entry : Bool → AuditEntry → A.State → List AuditEntry
  with_entry true e s = e ∷ A.entries s
  with_entry false e s = A.entries s

  -- A write that succeeds put exactly its entry on the trail, or nothing where there is none.
  pub write_audit_log-entries :
      (audited : Bool) (s : A.State) (e : AuditEntry) (s' : A.State)
      → write_audit_log A audited s e ≡ some s'
      → A.entries s' ≡ with_entry audited e s
  unfolding write_audit_log
  write_audit_log-entries true s e s' h = A.entries-create s e s' h
  write_audit_log-entries false s e s' h = ap A.entries (sym (some_inj s s' h))
