-- ===== src/Access/Base32/Bits.antt =====
-- What the shifts of base 32 keep of a byte and of the bits before it, as arithmetic on 32 bits.
use company_erp.Base.{ℕ, ◌+◌, ◌*◌, ◌%◌, ◌<◌, ◌≡◌, arith}
use company_erp.Access.Base32.{bits_at, shifted_in}

pub below_32 : (x : ℕ) → x % 32 < 32
below_32 x = omega arith

-- The last symbol of a text completes the last byte.
pub last_3 : (v u : ℕ) → bits_at (shifted_in u 5 (shifted_in v 2 0 % 32)) 2 256 ≡ u % 32 * 8 + v % 8
last_3 v u = omega arith

pub last_1 :
    (v u : ℕ) → bits_at (shifted_in u 5 (shifted_in v 4 0 % 32)) 4 256 ≡ u % 128 * 2 + v % 2
last_1 v u = omega arith

pub last_4 :
    (v u : ℕ) → bits_at (shifted_in u 5 (shifted_in v 1 0 % 32)) 1 256 ≡ u % 16 * 16 + v % 16
last_4 v u = omega arith

pub last_2 : (v u : ℕ) → bits_at (shifted_in u 5 (shifted_in v 3 0 % 32)) 3 256 ≡ u % 64 * 4 + v % 4
last_2 v u = omega arith

-- The bytes that come out, as arithmetic on 32 bits.
pub rest_0 :
    (v u c : ℕ)
    → c < 256
    → (shifted_in u 5 (bits_at (shifted_in v 8 c) 3 32)) % 32 * 8 + shifted_in v 8 c % 8 ≡ c
rest_0 v u c h = omega arith

pub first_3 :
    (v u c : ℕ)
    → c < 256
    → bits_at (shifted_in u 5 (bits_at (shifted_in v 8 c) 6 32)) 2 256 ≡ u % 32 * 8 + v % 8
first_3 v u c h = omega arith

pub rest_3 :
    (v u c : ℕ)
    → c < 256
    → (shifted_in
            (shifted_in u 5 (bits_at (shifted_in v 8 c) 6 32))
            5
            (bits_at (shifted_in v 8 c) 1 32))
          % 128
          * 2
        + shifted_in v 8 c % 2
      ≡ c
rest_3 v u c h = omega arith

pub first_1 :
    (v u c : ℕ)
    → c < 256
    → bits_at (shifted_in u 5 (bits_at (shifted_in v 8 c) 4 32)) 4 256 ≡ u % 128 * 2 + v % 2
first_1 v u c h = omega arith

pub rest_1 :
    (v u c : ℕ)
    → c < 256
    → (shifted_in u 5 (bits_at (shifted_in v 8 c) 4 32)) % 16 * 16 + shifted_in v 8 c % 16 ≡ c
rest_1 v u c h = omega arith

pub first_4 :
    (v u c : ℕ)
    → c < 256
    → bits_at (shifted_in u 5 (bits_at (shifted_in v 8 c) 7 32)) 1 256 ≡ u % 16 * 16 + v % 16
first_4 v u c h = omega arith

pub rest_4 :
    (v u c : ℕ)
    → c < 256
    → (shifted_in
            (shifted_in u 5 (bits_at (shifted_in v 8 c) 7 32))
            5
            (bits_at (shifted_in v 8 c) 2 32))
          % 64
          * 4
        + shifted_in v 8 c % 4
      ≡ c
rest_4 v u c h = omega arith

pub first_2 :
    (v u c : ℕ)
    → c < 256
    → bits_at (shifted_in u 5 (bits_at (shifted_in v 8 c) 5 32)) 3 256 ≡ u % 64 * 4 + v % 4
first_2 v u c h = omega arith

pub rest_2 :
    (v u c : ℕ)
    → c < 256
    → bits_at
        (shifted_in
          (shifted_in u 5 (bits_at (shifted_in v 8 c) 5 32))
          5
          (bits_at (shifted_in v 8 c) 0 32))
        0
        256
      ≡ c
rest_2 v u c h = omega arith
