-- ===== src/Base/Text.antt =====
-- Texts: `trim`, emptiness, and the date shape that the request schemas test.
use Prim.Native.Nat.{ℕ}
use Prim.Native.Char.{code}
use Prim.Native.String.{String}
use text.Mathlib.TextLemmas.{cons-ne-nil}
use mathlib.Core.Path.{◌≡◌, refl}
use mathlib.Core.Logic.{◌≢◌}
use mathlib.Core.Bool.{Bool, true, false, ◌&&◌, ◌||◌}
use mathlib.Core.List.{List, [], ◌∷◌}
use company_erp.Base.Tests.{◌==◌, leb, if◌then◌else◌}

-- The code points of a text. `String` has its own `[]` and `∷`.
abbrev pub codes : String → List ℕ
codes String.[] = []
codes (String.◌∷◌ c s) = code c ∷ codes s

abbrev pub is_empty : String → Bool
is_empty String.[] = true
is_empty (String.◌∷◌ c s) = false

-- White space and line terminators of ECMAScript, which `trim` takes off.
abbrev pub is_space : ℕ → Bool
is_space c =
    leb 9 c && leb c 13
    || (c == 0x20 || c == 0xa0 || c == 0x1680)
    || leb 0x2000 c && leb c 0x200a
    || (c == 0x2028 || c == 0x2029 || c == 0x202f || c == 0x205f || c == 0x3000 || c == 0xfeff)

trim_start : String → String
trim_start String.[] = String.[]
trim_start (String.◌∷◌ c s) =
    let rest = trim_start s in if is_space (code c) then rest else String.◌∷◌ c s

trim_end : String → String
trim_end String.[] = String.[]
trim_end (String.◌∷◌ c s) =
    let rest = trim_end s in
    if is_empty rest && is_space (code c) then String.[] else String.◌∷◌ c rest

unfoldable pub trim : String → String
unfolding trim_start trim_end
trim s = trim_end (trim_start s)

is_digit : ℕ → Bool
is_digit c = leb b'0' c && leb c b'9'

-- A template: `d` stands for one digit, any other character for itself.
fits : List ℕ → List ℕ → Bool
unfolding is_digit
fits [] [] = true
fits (t ∷ ts) (c ∷ cs) = (if t == b'd' then is_digit c else t == c) && fits ts cs
fits _ _ = false

-- `/^\d{4}-\d{2}-\d{2}$/.test(s)`
unfoldable pub is_date_text : String → Bool
unfolding fits
is_date_text s = fits (codes "dddd-dd-dd") (codes s)

prefix_of : List ℕ → List ℕ → Bool
prefix_of [] cs = true
prefix_of (t ∷ ts) (c ∷ cs) = t == c && prefix_of ts cs
prefix_of _ _ = false

-- `s.startsWith(prefix)`
unfoldable pub starts_with : String → String → Bool
unfolding prefix_of
starts_with s prefix = prefix_of (codes prefix) (codes s)

infix_of : List ℕ → List ℕ → Bool
infix_of ts [] = prefix_of ts []
infix_of ts (c ∷ cs) = prefix_of ts (c ∷ cs) || infix_of ts cs

-- `s.includes(part)`
unfoldable pub includes : String → String → Bool
unfolding infix_of prefix_of
includes s part = infix_of (codes part) (codes s)

same_codes : List ℕ → List ℕ → Bool
same_codes [] [] = true
same_codes (a ∷ xs) (b ∷ ys) = a == b && same_codes xs ys
same_codes _ _ = false

suffix_of : List ℕ → List ℕ → Bool
suffix_of ts [] = same_codes ts []
suffix_of ts (c ∷ cs) = same_codes ts (c ∷ cs) || suffix_of ts cs

-- `s.endsWith(suffix)`
unfoldable pub ends_with : String → String → Bool
unfolding suffix_of same_codes
ends_with s suffix = suffix_of (codes suffix) (codes s)

date_ok : is_date_text "2026-05-11" ≡ true
unfolding is_date_text
date_ok = refl

date_bad : is_date_text "2026-5-11" ≡ false
unfolding is_date_text
date_bad = refl

trim_both : trim "  a b " ≡ "a b"
unfolding trim
trim_both = refl

pub not-is_empty : (s : String) → is_empty s ≡ false → s ≢ ""
not-is_empty String.[] h e = cc
not-is_empty (String.◌∷◌ c s) h e = cons-ne-nil c s e
