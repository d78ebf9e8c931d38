-- ===== src/Database.antt =====
-- What the repositories of apps/api/src/infra/prisma rely on: Prisma's client for one table, and
-- the errors that it reports (prismaErrors.ts). Prisma is not part of the repository, so a table is
-- a parameter here, with its documented behaviour as laws. Rows are reached by their `id`.
pub mod Model
use company_erp.Base.{
  Option-cases, inl, inr, ℕ, ◌≡◌, ◌≢◌, String, Bool, true, false, Option, none, some, List, ◌∷◌,
  Result, ok, err, ite, String-discrete,
}

-- P2002 with the columns that it reports, P2003, P2025, and every other failure.
pub data DbError : Type 0 where
  unique_violation : List String → DbError
  foreign_key_violation record_not_found failure : DbError

pub record Table (Row : Type 0) : Type 1 where
  pub State : Type 0
  -- `findUnique({ where: { id } })`
  pub find_unique : State → String → Option Row
  -- `create({ data })`: the database chooses the id, from which the row is made.
  pub create : State → (String → Row) → Result DbError (String × State)
  -- `update({ where: { id }, data })`, which returns the changed row.
  pub update : State → String → (Row → Row) → Result DbError (Row × State)
  -- `updateMany({ where: { id, ...test }, data })`, which returns the count of changed rows, and
  -- fails where the new values break a constraint of the database.
  pub update_many : State → String → (Row → Bool) → (Row → Row) → Result DbError (ℕ × State)
  -- A created row was not there before, and nothing else changes.
  pub create_fresh :
      (s : State) (new : String → Row) (id : String) (s' : State)
      → create s new ≡ ok (id, s')
      → find_unique s id ≡ none
  pub find-create :
      (s : State) (new : String → Row) (id : String) (s' : State)
      → create s new ≡ ok (id, s')
      → (j : String)
      → find_unique s' j ≡ ite (String-discrete j id) (some (new id)) (find_unique s j)
  -- An update reports P2025 on a missing row, and changes one row else.
  pub update_missing :
      (s : State) (id : String) (data_of : Row → Row)
      → find_unique s id ≡ none
      → update s id data_of ≡ err record_not_found
  pub update_row :
      (s : State) (id : String) (data_of : Row → Row) (r : Row) (r' : Row) (s' : State)
      → find_unique s id ≡ some r
      → update s id data_of ≡ ok (r', s')
      → r' ≡ data_of r
  pub find-update :
      (s : State) (id : String) (data_of : Row → Row) (r' : Row) (s' : State)
      → update s id data_of ≡ ok (r', s')
      → (j : String) → find_unique s' j ≡ ite (String-discrete j id) (some r') (find_unique s j)
  -- At most one row has the id: where the call succeeds, it is counted and changed if it passes the
  -- test.
  pub update_many_hit :
      (s : State) (id : String) (test : Row → Bool) (data_of : Row → Row) (r : Row) (n : ℕ)
      (s' : State)
      → update_many s id test data_of ≡ ok (n, s')
      → find_unique s id ≡ some r
      → test r ≡ true
      → n ≡ 1
  pub find-update_many :
      (s : State) (id : String) (test : Row → Bool) (data_of : Row → Row) (r : Row) (n : ℕ)
      (s' : State)
      → update_many s id test data_of ≡ ok (n, s')
      → find_unique s id ≡ some r
      → test r ≡ true
      → (j : String)
      → find_unique s' j ≡ ite (String-discrete j id) (some (data_of r)) (find_unique s j)
  pub update_many_miss :
      (s : State) (id : String) (test : Row → Bool) (data_of : Row → Row) (n : ℕ) (s' : State)
      → update_many s id test data_of ≡ ok (n, s')
      → n ≢ 1
      → s' ≡ s
  pub update_many_test :
      (s : State) (id : String) (test : Row → Bool) (data_of : Row → Row) (n : ℕ) (s' : State)
      → update_many s id test data_of ≡ ok (n, s')
      → n ≡ 1
      → (r : Row) × (find_unique s id ≡ some r) × (test r ≡ true)

-- A table to which the code only adds rows, and whose rows it reads as a whole.
pub record Ledger (Row : Type 0) : Type 1 where
  pub State : Type 0
  pub rows : State → List Row
  -- `create({ data })`: the database chooses the id.
  pub create : State → (String → Row) → Result DbError (String × State)
  pub rows-create :
      (s : State) (new : String → Row) (id : String) (s' : State)
      → create s new ≡ ok (id, s')
      → rows s' ≡ new id ∷ rows s

-- A row that an update returned was there before, and is changed: a missing one is P2025.
pub updated_row :
    {Row : Type 0} (T : Table Row) (s : T.State) (id : String) (f : Row → Row) (r : Row)
    (s' : T.State)
    → T.update s id f ≡ ok (r, s')
    → (old : Row) × (T.find_unique s id ≡ some old) × (r ≡ f old)
updated_row T s id f r s' done = elim (Option-cases (T.find_unique s id)) [
  | inl missing ↦ cc (T.update_missing s id f missing)
  | inr (old, was) ↦ (old, was, T.update_row s id f old r s' was done)
]
