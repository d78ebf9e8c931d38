-- ===== src/Database/Model.antt =====
-- A table held in memory, which shows that the laws of a table can be met. It hands out one id, and
-- refuses to create a row when that is taken.
use company_erp.Base.{
  ℕ, ◌≡◌, String, Bool, true, Option, none, some, [], Result, ok, err, ite, String-discrete,
  if◌then◌else◌, arith, Option-cases, inl, inr,
}
use company_erp.Database.{Table, DbError, unique_violation, record_not_found}

abbrev pub new_id : String
new_id = "new"

abbrev pub Rows : Type 0 → Type 0
Rows Row = String → Option Row

module _ {Row : Type 0} where
  abbrev pub put : Rows Row → String → Row → Rows Row
  put s id r j = ite (String-discrete j id) (some r) (s j)

  abbrev create_in : Rows Row → (String → Row) → Result DbError (String × Rows Row)
  create_in s new = elim (s new_id) [
    | none ↦ ok (new_id, put s new_id (new new_id))
    | some _ ↦ err (unique_violation [])
  ]

  abbrev update_in : Rows Row → String → (Row → Row) → Result DbError (Row × Rows Row)
  update_in s id f = elim (s id) [ none ↦ err record_not_found | some r ↦ ok (f r, put s id (f r)) ]

  abbrev update_many_in :
      Rows Row → String → (Row → Bool) → (Row → Row) → Result DbError (ℕ × Rows Row)
  update_many_in s id test f = elim (s id) [
    | none ↦ ok (0, s)
    | some r ↦ if test r then ok (1, put s id (f r)) else ok (0, s)
  ]

  pub passed_test :
      (s : Rows Row) (id : String) (test : Row → Bool) (f : Row → Row) (n : ℕ) (s' : Rows Row)
      → update_many_in s id test f ≡ ok (n, s')
      → n ≡ 1
      → (r : Row) × (s id ≡ some r) × (test r ≡ true)
  passed_test s id test f n s' h one = elim (Option-cases (s id)) [
    | inl missing ↦ ground arith
    | inr (r, there) ↦ (r, there, ground arith)
  ]

  abbrev pub memory : Table Row
  memory = record {
    State = Rows Row;
    find_unique = λ s id. s id;
    create = create_in;
    update = update_in;
    update_many = update_many_in;
    create_fresh = λ s new id s' h. ground arith;
    find-create = λ s new id s' h j. ground arith;
    update_missing = λ s id f h. ground arith;
    update_row = λ s id f r r' s' was h. ground arith;
    find-update = λ s id f r' s' h j. ground arith;
    update_many_hit = λ s id test f r n s' h was pass. ground arith;
    find-update_many = λ s id test f r n s' h was pass j. ground arith;
    update_many_miss = λ s id test f n s' h ne. ground arith;
    update_many_test = λ s id test f n s' h one. passed_test s id test f n s' h one;
  }

-- A table of one row, under the id `key`, to which none is added.
module _ {Row : Type 0} (key : String) where
  abbrev find_single : Row → String → Option Row
  find_single s id = ite (String-discrete id key) (some s) none

  abbrev update_single : Row → String → (Row → Row) → Result DbError (Row × Row)
  update_single s id f = ite (String-discrete id key) (ok (f s, f s)) (err record_not_found)

  abbrev update_many_single : Row → String → (Row → Bool) → (Row → Row) → Result DbError (ℕ × Row)
  update_many_single s id test f =
      ite (String-discrete id key) (if test s then ok (1, f s) else ok (0, s)) (ok (0, s))

  pub passed_single :
      (s : Row) (id : String) (test : Row → Bool) (f : Row → Row) (n : ℕ) (s' : Row)
      → update_many_single s id test f ≡ ok (n, s')
      → n ≡ 1
      → (r : Row) × (find_single s id ≡ some r) × (test r ≡ true)
  passed_single s id test f n s' h one = elim (String-discrete id key) [
    | yes e ↦ (s, ground arith, ground arith)
    | no ne ↦ ground arith
  ]

  abbrev pub single : Table Row
  single = record {
    State = Row;
    find_unique = find_single;
    create = λ s new. err DbError.failure;
    update = update_single;
    update_many = update_many_single;
    create_fresh = λ s new id s' h. cc;
    find-create = λ s new id s' h j. cc;
    update_missing = λ s id f h. ground arith;
    update_row = λ s id f r r' s' was h. ground arith;
    find-update = λ s id f r' s' h j. ground arith;
    update_many_hit = λ s id test f r n s' h was pass. ground arith;
    find-update_many = λ s id test f r n s' h was pass j. ground arith;
    update_many_miss = λ s id test f n s' h ne. ground arith;
    update_many_test = λ s id test f n s' h one. passed_single s id test f n s' h one;
  }
