-- ===== src/Base/Outcome.antt =====
-- Results of code that throws, optional fields of request objects, and checked input.
use Prim.Native.String.{String}
use mathlib.Core.Path.{◌≡◌, refl}
use mathlib.Core.Logic.{◌⊎◌, inl, inr}
use mathlib.Core.Option.{Option, none, some}
use mathlib.Core.List.{List, [], ◌∷◌}
use native.Mathlib.Omega.{arith}

-- A call that returns or throws.
pub data Result {ℓ κ} (E : Type ℓ) (A : Type κ) : Type (ℓ ⊔ κ) where
  ok : A → Result E A
  err : E → Result E A

infixl 5 ◌>>=◌
abbrev pub ◌>>=◌ {ℓ κ ι} :
    {E : Type ℓ} {A : Type κ} {B : Type ι} → Result E A → (A → Result E B) → Result E B
ok a >>= f = f a
err e >>= f = err e

-- A property of the `T | null | undefined` of an update.
pub data Field {ℓ} (A : Type ℓ) : Type ℓ where
  absent cleared : Field A
  given : A → Field A

-- The value that a column takes: unchanged where the property is absent.
abbrev pub assign {ℓ} : {A : Type ℓ} → Field A → A → A → A
assign absent old null_value = old
assign cleared old null_value = null_value
assign (given a) old null_value = a

-- `if (issues.length > 0) throw ...; return normalized;`
abbrev pub finish {ℓ κ} :
    {E : Type ℓ} {A : Type κ} → (List String → E) → List String → A → Result E A
finish fail [] v = ok v
finish fail (i ∷ is) v = err (fail (i ∷ is))

-- What `finish` returns was normalised without an issue.
pub finish-eq-ok {ℓ κ} :
    {E : Type ℓ} {A : Type κ} (fail : List String → E) (is : List String) (v : A) {w : A}
    → finish fail is v ≡ ok w
    → (is ≡ []) × (v ≡ w)
finish-eq-ok fail [] v h = (refl, cc)
finish-eq-ok fail (i ∷ is) v h = ground arith

pub Result-cases {ℓ κ} :
    {E : Type ℓ} {A : Type κ} (r : Result E A) → ((e : E) × (r ≡ err e)) ⊎ ((a : A) × (r ≡ ok a))
Result-cases (ok a) = inr (a, refl)
Result-cases (err e) = inl (e, refl)

-- `value ?? fallback`
abbrev pub or_else {ℓ} : {A : Type ℓ} → Option A → A → A
or_else none fallback = fallback
or_else (some a) fallback = a

-- A result is one pair only.
pub ok_pair {ℓ κ ι} :
    {E : Type ℓ} {A : Type κ} {B : Type ι} (r : Result E (A × B)) (a a' : A) (b b' : B)
    → r ≡ ok (a, b)
    → r ≡ ok (a', b')
    → (a ≡ a') × (b ≡ b')
ok_pair r a a' b b' h k = (cc, cc)
