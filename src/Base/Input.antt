-- ===== src/Base/Input.antt =====
-- The helpers with which every module of the API checks its input. They stand in each of the
-- source's modules under the same names; where two copies differ, both are here. A helper that
-- takes `issues` returns what it pushes beside its value.
use Prim.Native.Nat.{ℕ, suc, ◌%◌}
use Prim.Native.String
use Prim.Native.String.{String}
use mathlib.Core.Path.{◌≡◌, refl}
use mathlib.Core.Logic.{inl, inr}
use mathlib.Core.Bool.{Bool, true, false}
use mathlib.Core.Option.{Option, none, some}
use mathlib.Core.List.{List, [], ◌∷◌}
use native.Mathlib.Omega.{arith}
use company_erp.Base.Tests.{if◌then◌else◌, ◌==◌, Bool-cases}
use company_erp.Base.Int.{ℤ, pos, negsuc}
use company_erp.Base.Text.{trim, is_empty, is_date_text}
use company_erp.Base.Outcome.{Field, absent, cleared, given}
use company_erp.Base.Json.{Json, undefined, null, num, str}

-- The units of 1/10000 in which numbers are counted.
abbrev pub scale : ℕ
scale = 10000

-- `value.trim() || null`
unfoldable pub nullable_string : Json → Field String
nullable_string null = cleared
nullable_string (str s) = if is_empty (trim s) then cleared else given (trim s)
nullable_string _ = absent

-- What a template such as `${field} is required` makes.
abbrev pub about : String → String → String
about field message = String.◌++◌ field message

unfoldable pub required_string : Json → String → Option String × List String
required_string (str s) field =
    if is_empty (trim s) then (none, about field " is required" ∷ []) else (some (trim s), [])
required_string _ field = (none, about field " is required" ∷ [])

abbrev pub is_integer : ℤ → Bool
is_integer (pos n) = n % scale == 0
is_integer (negsuc n) = suc n % scale == 0

-- `normalizePositiveNumber` of purchases and project sites.
unfoldable pub positive_number : Json → String → Option ℤ × List String
positive_number (num (pos (suc n))) field = (some (pos (suc n)), [])
positive_number _ field = (none, about field " must be a positive number" ∷ [])

-- `normalizePositiveNumber` of inventory, which also wants an integer.
unfoldable pub positive_integer : Json → String → Option ℤ × List String
positive_integer (num (pos (suc n))) field =
    if is_integer (pos (suc n))
    then (some (pos (suc n)), [])
    else (none, about field " must be an integer" ∷ [])
positive_integer _ field = (none, about field " must be a positive number" ∷ [])

unfoldable pub nonnegative_number : Json → String → Field ℤ × List String
nonnegative_number null field = (cleared, [])
nonnegative_number undefined field = (absent, [])
nonnegative_number (num (pos n)) field = (given (pos n), [])
nonnegative_number _ field = (absent, about field " must be a non-negative number" ∷ [])

-- `normalizeOptionalDate` of inventory and of project usage, where `null` is an issue.
unfoldable pub optional_date : Json → String → Option String × List String
optional_date undefined field = (none, [])
optional_date (str s) field =
    if is_date_text (trim s)
    then (some (trim s), [])
    else (none, about field " must be YYYY-MM-DD" ∷ [])
optional_date _ field = (none, about field " must be YYYY-MM-DD" ∷ [])

-- `normalizeOptionalDate` of contracts and certificates.
unfoldable pub nullable_date : Json → String → Field String × List String
nullable_date null field = (cleared, [])
nullable_date undefined field = (absent, [])
nullable_date (str s) field =
    if is_date_text (trim s)
    then (given (trim s), [])
    else (absent, about field " must be YYYY-MM-DD" ∷ [])
nullable_date _ field = (absent, about field " must be YYYY-MM-DD" ∷ [])

-- A required text that raised no issue is there, trimmed and not empty.
pub required_string_ok :
    (j : Json) (field : String)
    → (required_string j field).1 ≡ []
    → (s : String) × ((required_string j field).0 ≡ some s) × (is_empty s ≡ false)
unfolding required_string
required_string_ok (str s) field h = elim (Bool-cases (is_empty (trim s))) [
  | inl e ↦ ground arith
  | inr e ↦ (trim s, rw e, e)
]
required_string_ok _ field h = cc

pub positive_number_ok :
    (j : Json) (field : String)
    → (positive_number j field).1 ≡ []
    → (n : ℕ) × ((positive_number j field).0 ≡ some (pos (suc n)))
unfolding positive_number
positive_number_ok (num (pos (suc n))) field h = (n, refl)
positive_number_ok _ field h = cc

pub positive_integer_ok :
    (j : Json) (field : String)
    → (positive_integer j field).1 ≡ []
    → (n : ℕ) × ((positive_integer j field).0 ≡ some (pos (suc n))) × (suc n % scale ≡ 0)
unfolding positive_integer
positive_integer_ok (num (pos (suc n))) field h = elim (Bool-cases (is_integer (pos (suc n)))) [
  | inl e ↦ (n, rw e, ground arith)
  | inr e ↦ ground arith
]
positive_integer_ok _ field h = cc

-- `if (typeof value === "string") normalized.field = value.trim();`
unfoldable pub trimmed_text : Json → Option String
trimmed_text (str s) = some (trim s)
trimmed_text _ = none

-- `!normalized.field`
abbrev pub is_missing : Option String → Bool
is_missing none = true
is_missing (some s) = is_empty s

abbrev pub is_unset : Field String → Bool
is_unset absent = true
is_unset cleared = true
is_unset (given s) = is_empty s

-- `if (test) issues.push(message);`
abbrev pub issue_if : Bool → String → List String
issue_if true message = message ∷ []
issue_if false message = []
