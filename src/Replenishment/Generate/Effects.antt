-- ===== src/Replenishment/Generate/Effects.antt =====
-- What generating suggestions has done, whether it returns or throws.
use company_erp.Base.{
  ◌≡◌, refl, sym, ap, ◌∙◌, ◌⊎◌, inl, inr, subst, ℕ, suc, ◌+◌, String, true, false, Option, none,
  some, List, [], ◌∷◌, ◌++◌, keep, Result, ok, err, String-discrete, ite_self, if_neg, Result-cases,
  Option-cases, Bool-cases, is_empty, arith, some_not_none,
}
use company_erp.Base.Double.{nought, at_most}
use company_erp.Database.{Table}
use company_erp.Replenishment.Quantity.{suggestion_quantity}
use company_erp.Replenishment.Open.{stock_key}
use company_erp.Replenishment.Suggestions.{Suggestion, SuggestionError}
use company_erp.Replenishment.Generate.{
  StockedMaterial, Snapshot, is_watched, open_at, quantity_input, generated_data, Generated,
  skip_one, with_existing, with_created, Decision, skip, keep_open, make, decide_in, decide_at,
  decide_on, generate_from, generate,
}

-- The material has a default warehouse, in which the calculation asks for more than nothing.
pub record Short (snapshot : Snapshot) (m : StockedMaterial) (warehouse : String) : Type 0 where
  pub in_default : m.default_warehouse_id ≡ some warehouse
  pub is_named : is_empty warehouse ≡ false
  pub wanted : at_most (suggestion_quantity (quantity_input snapshot m warehouse)) nought ≡ false

-- It has no warehouse, or the calculation asks for nothing.
abbrev pub Enough : Snapshot → StockedMaterial → Option String → Type 0
Enough snapshot m none = Unit
Enough snapshot m (some warehouse) =
    (is_empty warehouse ≡ true)
    ⊎ (at_most (suggestion_quantity (quantity_input snapshot m warehouse)) nought ≡ true)

abbrev pub found_open : Snapshot → StockedMaterial → String → Option Suggestion
found_open snapshot m warehouse = open_at (stock_key warehouse m.id) snapshot.open_suggestions

-- What a round's decision says of its material.
abbrev DecisionFact : Snapshot → StockedMaterial → Decision → Type 0
DecisionFact snapshot m skip = Enough snapshot m m.default_warehouse_id
DecisionFact snapshot m (keep_open s) =
    (warehouse : String) × Short snapshot m warehouse × (found_open snapshot m warehouse ≡ some s)
DecisionFact snapshot m (make warehouse) =
    Short snapshot m warehouse × (found_open snapshot m warehouse ≡ none)

decide_in-fact :
    (snapshot : Snapshot) (m : StockedMaterial) (warehouse : String)
    → m.default_warehouse_id ≡ some warehouse
    → is_empty warehouse ≡ false
    → DecisionFact snapshot m (decide_in snapshot m warehouse)
unfolding decide_in
decide_in-fact snapshot m warehouse here named =
    let quantity = suggestion_quantity (quantity_input snapshot m warehouse) in
    elim (Bool-cases (at_most quantity nought)) [
      | inl enough ↦ rw (decide_in, enough) (subst (Enough snapshot m) (sym here) (inr enough))
      | inr wanted ↦
          let short : Short snapshot m warehouse = record {
            in_default = here;
            is_named = named;
            wanted = wanted;
          } in
          elim (Option-cases (found_open snapshot m warehouse)) [
            | inr (s, there) ↦ rw (decide_in, wanted, there) (warehouse, short, there)
            | inl missing ↦ rw (decide_in, wanted, missing) (short, missing)
          ]
    ]

decide_at-fact :
    (snapshot : Snapshot) (m : StockedMaterial) (o : Option String)
    → m.default_warehouse_id ≡ o
    → DecisionFact snapshot m (decide_at snapshot m o)
unfolding decide_at
decide_at-fact snapshot m none here = subst (Enough snapshot m) (sym here) tt
decide_at-fact snapshot m (some warehouse) here = elim (Bool-cases (is_empty warehouse)) [
  | inl blank ↦ rw (decide_at, blank) (subst (Enough snapshot m) (sym here) (inl blank))
  | inr named ↦ rw (decide_at, named) (decide_in-fact snapshot m warehouse here named)
]

decide_on-fact :
    (snapshot : Snapshot) (m : StockedMaterial) → DecisionFact snapshot m (decide_on snapshot m)
unfolding decide_on
decide_on-fact snapshot m = decide_at-fact snapshot m m.default_warehouse_id refl

module _ (S : Table Suggestion) (snapshot : Snapshot) where
  -- The suggestions made and found open and the number of materials skipped are those of the
  -- materials, in their order; what was made is in the table `s`.
  abbrev pub Account :
      S.State → List StockedMaterial → List Suggestion → List Suggestion → ℕ → Type 0
  Account s [] made found skipped = (made ≡ []) × (found ≡ []) × (skipped ≡ 0)
  Account s (m ∷ ms) made found skipped =
      (Enough snapshot m m.default_warehouse_id
        × ((rest : ℕ) × (skipped ≡ suc rest) × Account s ms made found rest))
      ⊎ ((warehouse : String) × (x : Suggestion) × (rest : List Suggestion) × Short snapshot m
            warehouse
          × (found_open snapshot m warehouse ≡ some x)
          × (found ≡ x ∷ rest)
          × Account s ms made rest skipped)
      ⊎ ((warehouse : String) × (id : String) × (rest : List Suggestion) × Short snapshot m
            warehouse
          × (found_open snapshot m warehouse ≡ none)
          × (made ≡ generated_data snapshot m warehouse id ∷ rest)
          × (S.find_unique s id ≡ some (generated_data snapshot m warehouse id))
          × Account s ms rest found skipped)

  -- Every row is still there, as it was.
  abbrev pub Kept : S.State → S.State → Type 0
  Kept s s' =
      (j : String) (r : Suggestion) → S.find_unique s j ≡ some r → S.find_unique s' j ≡ some r

  -- What a loop over the materials adds to what it started with.
  pub record Added (ms : List StockedMaterial) (g : Generated) (s : S.State) (g' : Generated)
      (s' : S.State) : Type 0 where
    pub kept : Kept s s'
    pub made : List Suggestion
    pub found : List Suggestion
    pub skipped : ℕ
    pub created_is : g'.created ≡ g.created ++ made
    pub existing_is : g'.existing_open ≡ g.existing_open ++ found
    pub skipped_is : g'.skipped ≡ g.skipped + skipped
    pub account : Account s' ms made found skipped

  abbrev pub LoopEffect :
      List StockedMaterial
      → Generated
      → S.State
      → Result SuggestionError Generated × S.State
      → Type 0
  LoopEffect ms g s (ok g', s') = Added ms g s g' s'
  LoopEffect ms g s (err e, s') = Kept s s'

  create-Kept :
      (s : S.State) (new : String → Suggestion) (id : String) (s' : S.State)
      → S.create s new ≡ ok (id, s')
      → Kept s s'
  create-Kept s new id s' done j r was = elim (String-discrete j id) [
    | yes e ↦
        elim (some_not_none r (
          sym was
          ∙ subst (λ k. S.find_unique s k ≡ none) (sym e) (S.create_fresh s new id s' done))) [ ]
    | no other ↦ S.find-create s new id s' done j ∙ if_neg (String-discrete j id) other _ _ ∙ was
  ]

  nothing_more : (xs : List Suggestion) → xs ≡ xs ++ []
  nothing_more [] = refl
  nothing_more (x ∷ xs) = ap (λ ys. x ∷ ys) (nothing_more xs)

  one_then : (xs ys : List Suggestion) (x : Suggestion) → (xs ++ (x ∷ [])) ++ ys ≡ xs ++ (x ∷ ys)
  one_then [] ys x = refl
  one_then (z ∷ zs) ys x = ap (λ l. z ∷ l) (one_then zs ys x)

  skipped_round :
      (m : StockedMaterial) (ms : List StockedMaterial) (g : Generated) (s : S.State)
      (x : Result SuggestionError Generated × S.State)
      → Enough snapshot m m.default_warehouse_id
      → LoopEffect ms (skip_one g) s x
      → LoopEffect (m ∷ ms) g s x
  skipped_round m ms g s (err e, s') enough more = more
  skipped_round m ms g s (ok g', s') enough more = record {
    kept = more.kept;
    made = more.made;
    found = more.found;
    skipped = suc more.skipped;
    created_is = more.created_is;
    existing_is = more.existing_is;
    skipped_is = omega (arith, more.skipped_is);
    account = inl (enough, (more.skipped, refl, more.account));
  }

  found_round :
      (m : StockedMaterial) (ms : List StockedMaterial) (g : Generated) (s : S.State)
      (y : Suggestion) (x : Result SuggestionError Generated × S.State)
      → DecisionFact snapshot m (keep_open y)
      → LoopEffect ms (with_existing y g) s x
      → LoopEffect (m ∷ ms) g s x
  found_round m ms g s y (err e, s') fact more = more
  found_round m ms g s y (ok g', s') (warehouse, short, there) more = record {
    kept = more.kept;
    made = more.made;
    found = y ∷ more.found;
    skipped = more.skipped;
    created_is = more.created_is;
    existing_is = more.existing_is ∙ one_then g.existing_open more.found y;
    skipped_is = more.skipped_is;
    account = inr (inl (warehouse, y, more.found, short, there, refl, more.account));
  }

  made_round :
      (m : StockedMaterial) (ms : List StockedMaterial) (g : Generated) (s s1 : S.State)
      (warehouse id : String) (x : Result SuggestionError Generated × S.State)
      → DecisionFact snapshot m (make warehouse)
      → S.create s (generated_data snapshot m warehouse) ≡ ok (id, s1)
      → LoopEffect ms (with_created (generated_data snapshot m warehouse id) g) s1 x
      → LoopEffect (m ∷ ms) g s x
  made_round m ms g s s1 warehouse id (err e, s') fact done more =
      λ j r was. more j r (create-Kept s _ id s1 done j r was)
  made_round m ms g s s1 warehouse id (ok g', s') (short, missing) done more =
      let row = generated_data snapshot m warehouse id in
      let there = more.kept id row (S.find-create s _ id s1 done id ∙ ite_self id _ _) in
      record {
        kept = λ j r was. more.kept j r (create-Kept s _ id s1 done j r was);
        made = row ∷ more.made;
        found = more.found;
        skipped = more.skipped;
        created_is = more.created_is ∙ one_then g.created more.made row;
        existing_is = more.existing_is;
        skipped_is = more.skipped_is;
        account = inr (inr (warehouse, id, more.made, short, missing, refl, there, more.account));
      }

  round :
      (m : StockedMaterial) (ms : List StockedMaterial) (g : Generated) (s : S.State) (d : Decision)
      → decide_on snapshot m ≡ d
      → DecisionFact snapshot m d
      → ((g1 : Generated) (s1 : S.State) → LoopEffect ms g1 s1 (generate_from S snapshot ms g1 s1))
      → LoopEffect (m ∷ ms) g s (generate_from S snapshot (m ∷ ms) g s)
  unfolding generate_from
  round m ms g s skip e fact rest =
      rw (generate_from, e) (skipped_round m ms g s _ fact (rest (skip_one g) s))
  round m ms g s (keep_open x) e fact rest =
      rw (generate_from, e) (found_round m ms g s x _ fact (rest (with_existing x g) s))
  round m ms g s (make warehouse) e fact rest =
      let new = generated_data snapshot m warehouse in
      elim (Result-cases (S.create s new)) [
        | inl (x, failed) ↦ rw (generate_from, e, failed) (λ j r was. was)
        | inr ((id, s1), done) ↦
            rw (generate_from, e, done)
              (made_round m ms g s s1 warehouse id _ fact done (rest (with_created (new id) g) s1))
      ]

  generate_from-Effect :
      (ms : List StockedMaterial) (g : Generated) (s : S.State)
      → LoopEffect ms g s (generate_from S snapshot ms g s)
  unfolding generate_from
  generate_from-Effect [] g s = record {
    kept = λ j r was. was;
    made = [];
    found = [];
    skipped = 0;
    created_is = nothing_more g.created;
    existing_is = nothing_more g.existing_open;
    skipped_is = omega arith;
    account = (refl, refl, refl);
  }
  generate_from-Effect (m ∷ ms) g s =
      round m ms g s (decide_on snapshot m) refl (decide_on-fact snapshot m)
        (λ g1 s1. generate_from-Effect ms g1 s1)

  -- Generating suggestions changes no row that was there. Where it returns, it has gone through the
  -- watched materials in their order: one without a named default warehouse, or for which the
  -- calculation asks for nothing, is skipped; of the others, one with an open suggestion adds that
  -- to the open ones, and one without gets a new row of its calculation, which is in the table and
  -- reported as created. Nothing else is reported.
  pub generate-Effect :
      (s : S.State)
      → LoopEffect
          (keep is_watched snapshot.materials)
          (record { created = []; existing_open = []; skipped = 0 })
          s
          (generate S snapshot s)
  unfolding generate
  generate-Effect s =
      generate_from-Effect (keep is_watched snapshot.materials)
        (record { created = []; existing_open = []; skipped = 0 }) s
