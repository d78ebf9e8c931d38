-- ===== src/Base/DoubleTests.antt =====
-- What doubles do to decimal sums.
use mathlib.Core.Path.{◌≡◌, refl}
use mathlib.Core.Bool.{true, false}
use company_erp.Base.Int.{pos}
use company_erp.Base.Double.{
  double, add, subtract, multiply, less, at_most, nought, to_fixed_4, stored,
}

-- 0.1 + 0.2 - 0.3 is positive.
sum_of_tenths :
    less nought (subtract (add (double (pos 1000)) (double (pos 2000))) (double (pos 3000))) ≡ true
unfolding double add subtract less
sum_of_tenths = refl

-- 0.7 + 0.1 is less than 0.8.
seven_tenths : at_most (double (pos 8000)) (add (double (pos 7000)) (double (pos 1000))) ≡ false
unfolding double add at_most
seven_tenths = refl

-- 0.3 - 0.1 is less than 0.2.
two_tenths : less (subtract (double (pos 3000)) (double (pos 1000))) (double (pos 2000)) ≡ true
unfolding double subtract less
two_tenths = refl

-- 5.9 + 2.2 + 4.9 is more than 13.
thirteen :
    less
      (double (pos 130000))
      (add (add (double (pos 59000)) (double (pos 22000))) (double (pos 49000)))
    ≡ true
unfolding double add less
thirteen = refl

-- 3.863 + 1.6235 is stored as 5.486.
below_half : stored (add (double (pos 38630)) (double (pos 16235))) ≡ pos 54860
unfolding double add stored
below_half = refl

-- 1.0005 is stored as 1.001, though its double is less.
half_up : stored (double (pos 10005)) ≡ pos 10010
unfolding double stored
half_up = refl

-- The product of 0.0003 and 0.5 is less than 0.00015.
product : to_fixed_4 (multiply (double (pos 3)) (double (pos 5000))) ≡ pos 1
unfolding double multiply to_fixed_4
product = refl

whole : add (double (pos 30000)) (double (pos 40000)) ≡ double (pos 70000)
unfolding double add
whole = refl
