-- ===== src/Base/Tests.antt =====
-- Boolean tests on the native numbers and on texts, the conditional, and case splits that keep
-- their equation.
use Prim.Native.Nat.{ℕ, compare, Ordering}
use Prim.Native.String.{String}
use mathlib.Core.Path.{◌≡◌, refl, sym, ◌∙◌}
use mathlib.Core.Logic.{◌⊎◌, inl, inr, ite, if_pos, if_neg}
use mathlib.Core.Bool.{Bool, true, false, false≢true}
use mathlib.Core.Option.{Option, none, some}
use text.Mathlib.Text.{◌==◌ as str_eq}
use text.Mathlib.TextEquality.{eq_iff}

abbrev pub ltb : ℕ → ℕ → Bool
ltb a b = elim (compare a b) [ Ordering.lt ↦ true | _ ↦ false ]

abbrev pub leb : ℕ → ℕ → Bool
leb a b = elim (compare a b) [ Ordering.gt ↦ false | _ ↦ true ]

infix 50 ◌==◌
abbrev pub ◌==◌ : ℕ → ℕ → Bool
a == b = elim (compare a b) [ Ordering.eq ↦ true | _ ↦ false ]

infix 1 if◌then◌else◌
abbrev pub if◌then◌else◌ {ℓ} : {A : Type ℓ} → Bool → A → A → A
if true then x else y = x
if false then x else y = y

pub Bool-cases : (b : Bool) → (b ≡ true) ⊎ (b ≡ false)
Bool-cases true = inl refl
Bool-cases false = inr refl

pub Option-cases {ℓ} : {A : Type ℓ} (o : Option A) → (o ≡ none) ⊎ ((a : A) × (o ≡ some a))
Option-cases none = inl refl
Option-cases (some a) = inr (a, refl)

-- Texts are compared by `===` in the source; the decision hands each branch its equation.
unfoldable pub String-discrete : Discrete String
String-discrete s t = go (str_eq s t) refl
  where
    go : (b : Bool) → str_eq s t ≡ b → Dec (s ≡ t)
    go true e = yes ((eq_iff s t).0 e)
    go false e = no λ p. false≢true (sym e ∙ (eq_iff s t).1 p)

-- The branch that is taken at the text itself, and at another text.
pub ite_self {ℓ} : {C : Type ℓ} (s : String) (a b : C) → ite (String-discrete s s) a b ≡ a
ite_self s a b = if_pos _ refl a b

pub ite_other {ℓ} :
    {C : Type ℓ} (s t : String) (a b : C) → ¬ (s ≡ t) → ite (String-discrete s t) a b ≡ b
ite_other s t a b h = if_neg _ h a b

pub some_inj {ℓ} : {A : Type ℓ} (a b : A) → some a ≡ some b → a ≡ b
some_inj a b h = cc

pub some_not_none {ℓ} : {A : Type ℓ} (a : A) → some a ≡ none → ⊥
some_not_none a h = cc
