-- ===== src/Access/Paths/Levels.antt =====
-- Which level a route needs for a method that writes.
use company_erp.Base.{
  All, ◌≡◌, refl, ◌⊎◌, inl, inr, String, Bool, true, false, ◌&&◌, some, List, [], ◌∷◌, any, find,
  if◌then◌else◌, arith, Bool-cases, Option-cases, subst, sym, ◌∙◌,
}
use company_erp.Base.Text.{starts_with}
use company_erp.Access.Paths.{
  RequiredLevel, read, manage, RoutePermission, RoutePermissionRule, is_reading, level_for_method,
  under, always, route_permission_table, route_permission,
}

-- The prefixes whose routes need no more than reading, whatever the method is.
abbrev pub reading_prefixes : List String
reading_prefixes =
    "/api/internal/app-version" ∷ "/api/internal/meta/" ∷ "/api/dashboard"
    ∷ "/api/project-usage-options" ∷ "/api/import-templates" ∷ []

-- A test that holds of a writing method comes with management, or stands for one of the prefixes.
abbrev GuardedBy : (String → String → Bool) → (String → RequiredLevel) → Type 0
GuardedBy test level =
    (pathname method : String)
    → test pathname method ≡ true
    → is_reading method ≡ false
    → (level method ≡ manage) ⊎ (any (starts_with pathname) reading_prefixes ≡ true)

abbrev Guarded : RoutePermissionRule → Type 0
Guarded item = GuardedBy item.test item.required_level

by_method : (test : String → String → Bool) → GuardedBy test level_for_method
unfolding level_for_method
by_method test pathname method h writing = inl (rw writing refl)

always_managed : (test : String → String → Bool) → GuardedBy test (always manage)
always_managed test pathname method h writing = inl refl

always_reading :
    (prefix : String)
    → ((pathname : String)
        → starts_with pathname prefix ≡ true
        → any (starts_with pathname) reading_prefixes ≡ true)
    → GuardedBy (under (prefix ∷ [])) (always read)
always_reading prefix known pathname method h writing = inr (known pathname (ground arith))

listed :
    (pathname : String)
    → ((starts_with pathname "/api/internal/app-version" ≡ true)
        ⊎ ((starts_with pathname "/api/internal/meta/" ≡ true)
            ⊎ ((starts_with pathname "/api/dashboard" ≡ true)
                ⊎ ((starts_with pathname "/api/project-usage-options" ≡ true)
                    ⊎ (starts_with pathname "/api/import-templates" ≡ true)))))
    → any (starts_with pathname) reading_prefixes ≡ true
listed pathname h = ground arith

jobs :
    GuardedBy
      (λ pathname method. starts_with pathname "/api/import-jobs" && is_reading method)
      (always read)
jobs pathname method h writing = ground arith

-- One rule after the other.
infixr 40 ◌then◌
◌then◌ {ℓ κ} : {A : Type ℓ} {B : Type κ} → A → B → A × B
first then rest = (first, rest)

route_permission_table-Guarded : All Guarded route_permission_table
unfolding route_permission_table
route_permission_table-Guarded =
    always_reading _ (λ p h. listed p (inl h))
    then always_reading _ (λ p h. listed p (inr (inl h)))
    then by_method _
    then by_method _
    then always_managed _
    then by_method _
    then always_reading _ (λ p h. listed p (inr (inr (inl h))))
    then by_method _
    then by_method _
    then by_method _
    then by_method _
    then by_method _
    then by_method _
    then by_method _
    then by_method _
    then by_method _
    then by_method _
    then by_method _
    then always_reading _ (λ p h. listed p (inr (inr (inr (inl h)))))
    then always_managed _
    then always_managed _
    then by_method _
    then by_method _
    then by_method _
    then by_method _
    then by_method _
    then by_method _
    then jobs
    then always_managed _
    then always_reading _ (λ p h. listed p (inr (inr (inr (inr h)))))
    then tt

find-Guarded :
    (items : List RoutePermissionRule) (pathname method : String) (item : RoutePermissionRule)
    → All Guarded items
    → find (λ (x : RoutePermissionRule). x.test pathname method) items ≡ some item
    → is_reading method ≡ false
    → (item.required_level method ≡ manage) ⊎ (any (starts_with pathname) reading_prefixes ≡ true)
find-Guarded [] pathname method item all h writing = cc
find-Guarded (x ∷ xs) pathname method item (one, all) h writing =
    elim (Bool-cases (x.test pathname method)) [
      | inl hit ↦
          let same : x ≡ item = ground arith in
          subst
            (λ (y : RoutePermissionRule).
              (y.required_level method ≡ manage)
              ⊎ (any (starts_with pathname) reading_prefixes ≡ true))
            same (one pathname method hit writing)
      | inr miss ↦ find-Guarded xs pathname method item all (ground arith) writing
    ]

-- For a method other than GET and HEAD, every path that is mapped needs management of its area,
-- unless it stands under one of the five reading prefixes.
pub route_permission-manage :
    (pathname method : String) (permission : RoutePermission)
    → is_reading method ≡ false
    → any (starts_with pathname) reading_prefixes ≡ false
    → route_permission pathname method ≡ some permission
    → permission.required_level ≡ manage
unfolding route_permission
route_permission-manage pathname method permission writing elsewhere h =
    let search =
      find (λ (x : RoutePermissionRule). x.test pathname method) route_permission_table in
    elim (Option-cases search) [
      | inl e ↦ ground arith
      | inr (item, e) ↦
          let level : item.required_level method ≡ permission.required_level = ground arith in
          elim (find-Guarded route_permission_table pathname method item
            route_permission_table-Guarded e writing) [
              | inl managed ↦ sym level ∙ managed
              | inr reading ↦ cc
            ]
    ]
