-- ===== src/Base/Double.antt =====
-- The `number`s that the code computes with: IEEE doubles, rounded to 53 bits, half to even. A
-- finite double is counted in units of 2^-80. The doubles of decimals with four places at most,
-- and their sums, differences and products, are whole numbers of these units. A column and the
-- number of a request body stay decimals, counted in units of 1/10000, and `double` is the double
-- next to one.
use Prim.Native.Nat.{ℕ, zero, suc, ◌+◌, ◌*◌, ◌/◌, ◌%◌, ◌^◌}
use mathlib.Core.Bool.{Bool}
use company_erp.Base.Tests.{◌==◌, ltb, if◌then◌else◌}
use company_erp.Base.Int.{ℤ, pos, negsuc, ◌+ℤ◌, ◌-ℤ◌, ◌*ℤ◌, ltb_ℤ, leb_ℤ, neg, max_zero}

-- How often `n` is halved before it has 53 bits.
excess : ℕ → ℕ → ℕ
excess zero n = 0
excess (suc fuel) n = let more = excess fuel (n / 2) in if ltb n (2 ^ 53) then 0 else suc more

-- `quotient`, or the next number, by what is left of the `unit`.
nearest_even : ℕ → ℕ → ℕ → ℕ
nearest_even quotient rest unit =
    if ltb (2 * rest) unit
    then quotient
    else if 2 * rest == unit
    then quotient + quotient % 2
    else quotient + 1

round_by : ℕ → ℕ → ℕ
unfolding nearest_even
round_by unit n = nearest_even (n / unit) (n % unit) unit * unit

-- A number of less than 1253 bits, rounded to 53.
unfoldable pub round_53 : ℕ → ℕ
unfolding excess round_by
round_53 n = round_by (2 ^ excess 1200 n) n

unfoldable pub round_signed : ℤ → ℤ
unfolding round_53
round_signed (pos n) = pos (round_53 n)
round_signed (negsuc n) = neg (pos (round_53 (suc n)))

pub data Double : Type 0 where
  ticks : ℤ → Double

abbrev pub nought : Double
nought = ticks (pos 0)

-- The last bit of the numerator says whether the division left a rest.
nearest_decimal : ℕ → ℕ
unfolding round_53
nearest_decimal n =
    let scaled = n * 2 ^ 80 in
    round_53 (2 * (scaled / 10000) + (if scaled % 10000 == 0 then 0 else 1)) / 2

-- The double next to so many units of 1/10000.
unfoldable pub double : ℤ → Double
unfolding nearest_decimal
double (pos n) = ticks (pos (nearest_decimal n))
double (negsuc n) = ticks (neg (pos (nearest_decimal (suc n))))

-- `a + b`
unfoldable pub add : Double → Double → Double
unfolding round_signed ◌+ℤ◌
add (ticks a) (ticks b) = ticks (round_signed (a +ℤ b))

-- `a - b`
unfoldable pub subtract : Double → Double → Double
unfolding round_signed ◌-ℤ◌
subtract (ticks a) (ticks b) = ticks (round_signed (a -ℤ b))

over_unit : ℤ → ℤ
over_unit (pos n) = pos (n / 2 ^ 80)
over_unit (negsuc n) = neg (pos (suc n / 2 ^ 80))

-- `a * b`, whose rounded value is a whole number of the units.
unfoldable pub multiply : Double → Double → Double
unfolding round_signed over_unit ◌*ℤ◌
multiply (ticks a) (ticks b) = ticks (over_unit (round_signed (a *ℤ b)))

-- `a < b`
unfoldable pub less : Double → Double → Bool
less (ticks a) (ticks b) = ltb_ℤ a b

-- `a <= b`
unfoldable pub at_most : Double → Double → Bool
at_most (ticks a) (ticks b) = leb_ℤ a b

-- `Math.max(0, a)`
unfoldable pub floor_zero : Double → Double
floor_zero (ticks a) = ticks (max_zero a)

fixed_4 : ℕ → ℕ
fixed_4 n = (n * 10000 + 2 ^ 79) / 2 ^ 80

-- `Number(a.toFixed(4))`, in units of 1/10000: the larger of two that are equally near.
unfoldable pub to_fixed_4 : Double → ℤ
unfolding fixed_4
to_fixed_4 (ticks (pos n)) = pos (fixed_4 n)
to_fixed_4 (ticks (negsuc n)) = neg (pos (fixed_4 (suc n)))

thousandths : ℕ → ℕ
unfolding nearest_decimal
thousandths n =
    let k = (n * 1000 + 2 ^ 79) / 2 ^ 80 in
    if ltb n (nearest_decimal (10 * k + 5)) then k else k + 1

-- What a column with three places keeps of a double, in units of 1/10000. The column rounds the
-- shortest text of the double, half up: one half of a thousandth counts as such also where its
-- double is a little less.
unfoldable pub stored : Double → ℤ
unfolding thousandths
stored (ticks (pos n)) = pos (10 * thousandths n)
stored (ticks (negsuc n)) = neg (pos (10 * thousandths (suc n)))
