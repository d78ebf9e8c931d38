-- ===== src/Base/Day.antt =====
-- `new Date(`${text}T00:00:00.000Z`)` of a text in the shape of a date.
use Prim.Native.Nat.{ℕ, ◌+◌, ◌-◌, ◌*◌, ◌/◌, ◌%◌}
use Prim.Native.String
use Prim.Native.String.{String}
use mathlib.Core.Path.{◌≡◌, refl}
use mathlib.Core.Bool.{Bool, false, ◌&&◌, ◌||◌, not}
use mathlib.Core.List.{List, [], ◌∷◌}
use company_erp.Base.Tests.{◌==◌, leb, if◌then◌else◌}
use company_erp.Base.Text.{codes, is_date_text}
use company_erp.Base.Decimal.{decimal}

-- The digits of a text as one number; its dashes do not count.
number_of : ℕ → List ℕ → ℕ
number_of n [] = n
number_of n (c ∷ cs) = if c == b'-' then number_of n cs else number_of (10 * n + (c - b'0')) cs

-- 2026-05-11 as 20260511.
date_number : String → ℕ
unfolding number_of
date_number s = number_of 0 (codes s)

year_of : ℕ → ℕ
year_of n = (n - n % 10000) / 10000

month_of : ℕ → ℕ
month_of n = (n % 10000 - n % 100) / 100

is_leap : ℕ → Bool
is_leap y = y % 4 == 0 && (not (y % 100 == 0) || y % 400 == 0)

days_in : ℕ → ℕ → ℕ
unfolding is_leap
days_in y m =
    if m == 2
    then (if is_leap y then 29 else 28)
    else if m == 4 || m == 6 || m == 9 || m == 11
    then 30
    else 31

-- The format allows the months 1 to 12 and the days 1 to 31; any other date is invalid.
unfoldable pub is_day : String → Bool
unfolding date_number month_of is_date_text
is_day s =
    let n = date_number s in
    is_date_text s
    && (leb 1 (month_of n) && leb (month_of n) 12)
    && (leb 1 (n % 100) && leb (n % 100) 31)

two_digits : ℕ → String
two_digits n = if leb 10 n then decimal n else String.◌++◌ "0" (decimal n)

four_digits : ℕ → String
unfolding two_digits
four_digits n = String.◌++◌ (two_digits (n / 100)) (two_digits (n % 100))

date_text : ℕ → ℕ → ℕ → String
unfolding two_digits four_digits
date_text y m d =
    String.◌++◌ (four_digits y)
      (String.◌++◌ "-" (String.◌++◌ (two_digits m) (String.◌++◌ "-" (two_digits d))))

-- The day that is stored: one after the last of its month is one of the next month.
unfoldable pub day_of : String → String
unfolding date_number year_of month_of days_in date_text
day_of s =
    let n = date_number s in
    let last = days_in (year_of n) (month_of n) in
    if leb (n % 100) last then s else date_text (year_of n) (month_of n + 1) (n % 100 - last)

kept : day_of "2028-02-29" ≡ "2028-02-29"
unfolding day_of
kept = refl

turned : day_of "2026-02-31" ≡ "2026-03-03"
unfolding day_of decimal
turned = refl

no_month : is_day "2026-13-01" ≡ false
unfolding is_day
no_month = refl

no_text : is_day "" ≡ false
unfolding is_day
no_text = refl
