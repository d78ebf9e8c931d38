-- ===== src/Purchase/Repository/Transition.antt =====
-- The compare-and-set of the purchase request repository, on every branch.
use company_erp.Base.{
  ℕ, ite_self, if_pos, ◌≢◌, ◌==◌, ◌≡◌, refl, ◌⊎◌, inl, inr, String, true, false, none, some, ok,
  err, ite, String-discrete, Option-cases, Bool-cases, arith, ◌∙◌, ap, Result-cases,
}
use company_erp.Database.{Table}
use company_erp.Purchase.Status.{RequestStatus, RequestStatus-discrete}
use company_erp.Purchase.Data.{PurchaseRequest}
use company_erp.Purchase.Repository.{
  RepositoryError, database, transition, state_conflict, has_status,
}

has_status_sound : (expected s : RequestStatus) → has_status expected s ≡ true → s ≡ expected
has_status_sound expected s h = elim (RequestStatus-discrete s expected) [
  | yes e ↦ e
  | no n ↦ ground arith
]

one_of_test : (n : ℕ) → (n == 1) ≡ true → n ≡ 1
one_of_test n h = ground arith

one_is_one : (n : ℕ) → n ≡ 1 → (n == 1) ≡ true
one_is_one n h = ground arith

not_one_of_test : (n : ℕ) → (n == 1) ≡ false → n ≢ 1
not_one_of_test n h = ground arith

module _ (T : Table PurchaseRequest) (id : String) (expected : RequestStatus)
    (data_of : PurchaseRequest → PurchaseRequest) (s : T.State) where
  -- The row had the expected status and is changed, and no other row is.
  pub record Moved (r : PurchaseRequest) (s' : T.State) : Type 0 where
    pub old : PurchaseRequest
    pub was : T.find_unique s id ≡ some old
    pub as_expected : old.status ≡ expected
    pub changed : r ≡ data_of old
    pub only :
        (j : String)
        → T.find_unique s' j ≡ ite (String-discrete j id) (some (data_of old)) (T.find_unique s j)

  -- Either the row moves, or nothing changes: it is missing, it has another status by now, or the
  -- database refuses the new values.
  pub transition_cases :
      ((r : PurchaseRequest) × (s' : T.State) × (transition T id expected data_of s
          ≡ ok (some r, s'))
        × Moved r s')
      ⊎ ((e : RepositoryError) × (transition T id expected data_of s ≡ err e))
      ⊎ (transition T id expected data_of s ≡ ok (none, s))
  unfolding transition
  transition_cases =
      let test = λ (r : PurchaseRequest). has_status expected r.status in
      elim (Result-cases (T.update_many s id test data_of)) [
        | inl (e, failed) ↦ inr (inl (database e, rw (failed, transition) refl))
        | inr ((n, v), done) ↦ elim (Bool-cases (n == 1)) [
          | inl e ↦
              let (old, was, passed) =
                T.update_many_test s id test data_of n v done (one_of_test n e) in
              let only = T.find-update_many s id test data_of old n v done was passed in
              inl (
                data_of old,
                v,
                rw (done, transition, e) (ap (λ o. ok (o, v)) (only id ∙ ite_self id _ _)),
                record {
                  old = old;
                  was = was;
                  as_expected = has_status_sound expected old.status passed;
                  changed = refl;
                  only = only;
                },
              )
          | inr e ↦
              let same = T.update_many_miss s id test data_of n v done (not_one_of_test n e) in
              elim (Option-cases (T.find_unique v id)) [
                | inl missing ↦
                    inr (inr (rw (done, transition, e, missing) (ap (λ u. ok (none, u)) same)))
                | inr (r, there) ↦ inr (inl (state_conflict, rw (done, transition, e, there) refl))
              ]
        ]
      ]

  -- The row moves if it has the expected status and the database takes the new values.
  pub transition_hit :
      (r : PurchaseRequest) (n : ℕ) (s' : T.State)
      → T.update_many s id (λ (q : PurchaseRequest). has_status expected q.status) data_of
        ≡ ok (n, s')
      → T.find_unique s id ≡ some r
      → r.status ≡ expected
      → (transition T id expected data_of s ≡ ok (some (data_of r), s'))
        × (T.find_unique s' id ≡ some (data_of r))
  unfolding transition
  transition_hit r n s' done was same =
      let test = λ (q : PurchaseRequest). has_status expected q.status in
      let passes : test r ≡ true = if_pos (RequestStatus-discrete r.status expected) same _ _ in
      let one : (n == 1) ≡ true =
        one_is_one n (T.update_many_hit s id test data_of r n s' done was passes) in
      let there : T.find_unique s' id ≡ some (data_of r) =
        T.find-update_many s id test data_of r n s' done was passes id ∙ ite_self id _ _ in
      (rw (done, transition, one) (ap (λ o. ok (o, s')) there), there)
