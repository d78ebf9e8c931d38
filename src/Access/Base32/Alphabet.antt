-- ===== src/Access/Base32/Alphabet.antt =====
-- The symbols of base 32 and their indices.
use company_erp.Base.{
  ◌≡◌, refl, ℕ, zero, suc, ◌<◌, ◌==◌, ◌&&◌, Bool, true, false, Option, none, some, List, [], ◌∷◌,
  All, arith, subst, sym, ap, not, ◌∙◌, ℕ_discrete,
}
use company_erp.Access.Base32.{symbol, symbol_index, before_stripped, strip_padding}

-- A test of all numbers below a bound, by running it.
all_below : (ℕ → Bool) → ℕ → Bool
all_below test zero = true
all_below test (suc n) = test n && all_below test n

none_below : (i : ℕ) → i < 0 → ⊥
none_below i below = omega arith

all_below_at : (test : ℕ → Bool) (n i : ℕ) → all_below test n ≡ true → i < n → test i ≡ true
unfolding all_below
all_below_at test zero i h below = elim (none_below i below) [ ]
all_below_at test (suc n) i h below = elim (ℕ_discrete i n) [
  | yes e ↦ subst (λ k. test k ≡ true) (sym e) (ground arith)
  | no other ↦ all_below_at test n i (ground arith) (omega arith)
]

is_some_of : ℕ → Option ℕ → Bool
is_some_of i none = false
is_some_of i (some j) = j == i

is_some_of-eq : (i : ℕ) (o : Option ℕ) → is_some_of i o ≡ true → o ≡ some i
unfolding is_some_of
is_some_of-eq i none h = cc
is_some_of-eq i (some j) h = ground arith

indexed : (i : ℕ) → Bool
indexed i = is_some_of i (symbol_index (symbol i))

all_indexed : all_below indexed 32 ≡ true
unfolding all_below indexed is_some_of symbol_index symbol
all_indexed = refl

pub symbol_index-symbol : (i : ℕ) → i < 32 → symbol_index (symbol i) ≡ some i
unfolding indexed
symbol_index-symbol i h = is_some_of-eq i _ (all_below_at indexed 32 i all_indexed h)

-- A symbol of the alphabet, and no padding.
abbrev pub IsSymbol : ℕ → Type 0
IsSymbol c = (i : ℕ) × (i < 32) × (c ≡ symbol i)

not_padding : (i : ℕ) → Bool
not_padding i = not (symbol i == b'=')

all_not_padding : all_below not_padding 32 ≡ true
unfolding all_below not_padding symbol
all_not_padding = refl

false_of_not : (b : Bool) → not b ≡ true → b ≡ false
false_of_not true h = cc
false_of_not false h = refl

symbol-padding : (i : ℕ) → i < 32 → (symbol i == b'=') ≡ false
unfolding not_padding
symbol-padding i h = false_of_not _ (all_below_at not_padding 32 i all_not_padding h)

before_stripped-symbol : (c : ℕ) (cs : List ℕ) → IsSymbol c → before_stripped c cs ≡ c ∷ cs
unfolding before_stripped
before_stripped-symbol c [] (i, below, e) =
    let apart : (c == b'=') ≡ false =
      subst (λ x. (x == b'=') ≡ false) (sym e) (symbol-padding i below) in
    ground arith
before_stripped-symbol c (d ∷ ds) one = refl

pub strip_padding-symbols : (cs : List ℕ) → All IsSymbol cs → strip_padding cs ≡ cs
unfolding strip_padding
strip_padding-symbols [] all = refl
strip_padding-symbols (c ∷ cs) (one, all) =
    ap (before_stripped c) (strip_padding-symbols cs all) ∙ before_stripped-symbol c cs one
