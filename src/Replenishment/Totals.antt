-- ===== src/Replenishment/Totals.antt =====
-- How `reservedUsageByKey` and `openPurchaseByMaterialId` of
-- apps/api/src/infra/prisma/prismaReplenishmentRepository.ts add rows up in a `Map`.
use company_erp.Base.{
  ◌≡◌, refl, ap, ◌∙◌, sym, subst, inl, inr, String, Option, none, some, List, [], ◌∷◌, ite,
  String-discrete, if_pos, if_neg, Option-cases,
}
use company_erp.Base.Double.{Double, nought, add}

-- `Map<string, number>` in the order of insertion.
abbrev pub Totals : Type 0
Totals = List (String × Double)

-- `totals.get(key) ?? 0`
unfoldable pub total_of : String → Totals → Double
total_of key [] = nought
total_of key ((k, n) ∷ totals) =
    let rest = total_of key totals in ite (String-discrete k key) n rest

-- `totals.set(key, value)`
unfoldable pub set_total : String → Double → Totals → Totals
set_total key value [] = (key, value) ∷ []
set_total key value ((k, n) ∷ totals) =
    let rest = set_total key value totals in
    ite (String-discrete k key) ((k, value) ∷ totals) ((k, n) ∷ rest)

-- `totals.set(key, (totals.get(key) ?? 0) + amount)`, for each row that has a key.
unfoldable pub add_rows {ℓ} :
    {Row : Type ℓ} (key_of : Row → Option String) (amount_of : Row → Double)
    → List Row
    → Totals
    → Totals
unfolding set_total total_of add
add_rows key_of amount_of [] totals = totals
add_rows key_of amount_of (r ∷ rs) totals = elim (key_of r) [
  | none ↦ add_rows key_of amount_of rs totals
  | some key ↦
      add_rows key_of amount_of rs (set_total key (add (total_of key totals) (amount_of r)) totals)
]

-- The rows of a key, added to `start` one after the other.
unfoldable pub sum_at {ℓ} :
    {Row : Type ℓ} (key_of : Row → Option String) (amount_of : Row → Double)
    → String
    → Double
    → List Row
    → Double
sum_at key_of amount_of key start [] = start
sum_at key_of amount_of key start (r ∷ rs) = elim (key_of r) [
  | none ↦ sum_at key_of amount_of key start rs
  | some k ↦
      let next = ite (String-discrete k key) (add start (amount_of r)) start in
      sum_at key_of amount_of key next rs
]

total_of_first :
    (key : String) (n : Double) (totals : Totals) → total_of key ((key, n) ∷ totals) ≡ n
unfolding total_of
total_of_first key n totals = if_pos (String-discrete key key) refl n (total_of key totals)

total_of_later :
    (key j : String) (n : Double) (totals : Totals)
    → ¬ (j ≡ key)
    → total_of key ((j, n) ∷ totals) ≡ total_of key totals
unfolding total_of
total_of_later key j n totals ne = if_neg (String-discrete j key) ne n (total_of key totals)

set_total_first :
    (k : String) (value n : Double) (totals : Totals)
    → set_total k value ((k, n) ∷ totals) ≡ (k, value) ∷ totals
unfolding set_total
set_total_first k value n totals = if_pos (String-discrete k k) refl _ _

set_total_later :
    (k j : String) (value n : Double) (totals : Totals)
    → ¬ (j ≡ k)
    → set_total k value ((j, n) ∷ totals) ≡ (j, n) ∷ set_total k value totals
unfolding set_total
set_total_later k j value n totals ne = if_neg (String-discrete j k) ne _ _

-- The key that was set has the value.
set_total_same :
    (k : String) (value : Double) (totals : Totals) → total_of k (set_total k value totals) ≡ value
unfolding set_total
set_total_same k value [] = total_of_first k value []
set_total_same k value ((j, n) ∷ totals) = elim (String-discrete j k) [
  | yes e ↦
      subst (λ i. total_of k (set_total k value ((i, n) ∷ totals)) ≡ value) (sym e)
        (ap (total_of k) (set_total_first k value n totals) ∙ total_of_first k value totals)
  | no ne ↦
      ap (total_of k) (set_total_later k j value n totals ne)
      ∙ (total_of_later k j n (set_total k value totals) ne ∙ set_total_same k value totals)
]

-- Every other key keeps its value.
set_total_other :
    (key k : String) (value : Double) (totals : Totals)
    → ¬ (k ≡ key)
    → total_of key (set_total k value totals) ≡ total_of key totals
unfolding set_total
set_total_other key k value [] ne = total_of_later key k value [] ne
set_total_other key k value ((j, n) ∷ totals) ne = elim (String-discrete j k) [
  | yes e ↦
      let other : ¬ (j ≡ key) = λ h. ne (sym e ∙ h) in
      subst
        (λ i. total_of key (set_total k value ((i, n) ∷ totals)) ≡ total_of key ((i, n) ∷ totals))
        (sym e)
        (ap (total_of key) (set_total_first k value n totals)
          ∙ (total_of_later key k value totals ne ∙ sym (total_of_later key k n totals ne)))
  | no apart ↦
      let rest = set_total_other key k value totals ne in
      ap (total_of key) (set_total_later k j value n totals apart) ∙ elim (String-discrete j key) [
        | yes e ↦
            subst
              (λ i.
                total_of key ((i, n) ∷ set_total k value totals) ≡ total_of key ((i, n) ∷ totals))
              (sym e)
              (total_of_first key n (set_total k value totals) ∙ sym (total_of_first key n totals))
        | no far ↦
            total_of_later key j n (set_total k value totals) far
            ∙ (rest ∙ sym (total_of_later key j n totals far))
      ]
]

module _ {ℓ} {Row : Type ℓ} (key_of : Row → Option String) (amount_of : Row → Double) where
  sum_at-none :
      (key : String) (start : Double) (r : Row) (rs : List Row)
      → key_of r ≡ none
      → sum_at key_of amount_of key start (r ∷ rs) ≡ sum_at key_of amount_of key start rs
  unfolding sum_at
  sum_at-none key start r rs e = rw (e, sum_at) refl

  sum_at-some :
      (key k : String) (start : Double) (r : Row) (rs : List Row)
      → key_of r ≡ some k
      → sum_at key_of amount_of key start (r ∷ rs)
        ≡ sum_at key_of amount_of key
            (ite (String-discrete k key) (add start (amount_of r)) start)
            rs
  unfolding sum_at
  sum_at-some key k start r rs e = rw (e, sum_at) refl

  add_rows-none :
      (r : Row) (rs : List Row) (totals : Totals)
      → key_of r ≡ none
      → add_rows key_of amount_of (r ∷ rs) totals ≡ add_rows key_of amount_of rs totals
  unfolding add_rows
  add_rows-none r rs totals e = rw (e, add_rows) refl

  add_rows-some :
      (k : String) (r : Row) (rs : List Row) (totals : Totals)
      → key_of r ≡ some k
      → add_rows key_of amount_of (r ∷ rs) totals
        ≡ add_rows key_of amount_of rs (set_total k (add (total_of k totals) (amount_of r)) totals)
  unfolding add_rows
  add_rows-some k r rs totals e = rw (e, add_rows) refl

  -- What a row with a key does to the total of a key.
  set_total_next :
      (k key : String) (amount : Double) (totals : Totals)
      → total_of key (set_total k (add (total_of k totals) amount) totals)
        ≡ ite (String-discrete k key) (add (total_of key totals) amount) (total_of key totals)
  set_total_next k key amount totals = elim (String-discrete k key) [
    | yes same ↦
        subst
          (λ i.
            total_of i (set_total k (add (total_of k totals) amount) totals)
            ≡ add (total_of i totals) amount)
          same (set_total_same k (add (total_of k totals) amount) totals)
        ∙ sym (if_pos (String-discrete k key) same _ _)
    | no apart ↦
        set_total_other key k _ totals apart ∙ sym (if_neg (String-discrete k key) apart _ _)
  ]

  -- Adding rows up in a map gives each key what it had, and its rows added to that in their order.
  pub add_rows-sum_at :
      (rs : List Row) (totals : Totals) (key : String)
      → total_of key (add_rows key_of amount_of rs totals)
        ≡ sum_at key_of amount_of key (total_of key totals) rs
  unfolding add_rows sum_at
  add_rows-sum_at [] totals key = refl
  add_rows-sum_at (r ∷ rs) totals key = elim (Option-cases (key_of r)) [
    | inl e ↦
        ap (total_of key) (add_rows-none r rs totals e)
        ∙ (add_rows-sum_at rs totals key ∙ sym (sum_at-none key (total_of key totals) r rs e))
    | inr (k, e) ↦
        let next = set_total k (add (total_of k totals) (amount_of r)) totals in
        ap (total_of key) (add_rows-some k r rs totals e)
        ∙ (add_rows-sum_at rs next key
            ∙ (ap (λ t. sum_at key_of amount_of key t rs)
                  (set_total_next k key (amount_of r) totals)
                ∙ sym (sum_at-some key k (total_of key totals) r rs e)))
  ]
