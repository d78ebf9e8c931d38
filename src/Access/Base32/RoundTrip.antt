-- ===== src/Access/Base32/RoundTrip.antt =====
-- A buffer that is encoded in base 32 is decoded to itself.
use company_erp.Base.{
  ◌≡◌, refl, ap, ◌∙◌, ℕ, suc, ◌+◌, ◌-◌, ◌*◌, ◌%◌, ◌<◌, ltb, leb, Bool, true, false, some, List, [],
  ◌∷◌, ◌++◌, All, Bool-cases, inl, inr, zero, if◌then◌else◌,
}
use company_erp.Access.Base32.{
  symbol, bits_at, shifted_in, drain, encode_from, base32_encode, push, decode_from, strip_padding,
  base32_decode,
}
use company_erp.Access.Base32.Bits.{
  below_32, last_3, last_1, last_4, last_2, rest_0, first_3, rest_3, first_1, rest_1, first_4,
  rest_4, first_2, rest_2,
}
use company_erp.Access.Base32.Alphabet.{symbol_index-symbol, IsSymbol, strip_padding-symbols}

abbrev IsByte : ℕ → Type 0
IsByte b = b < 256

-- Reading one symbol.
decode_from-symbol :
    (bits value i : ℕ) (cs : List ℕ)
    → i < 32
    → decode_from bits value (symbol i ∷ cs) ≡ (
        if leb 8 (bits + 5)
        then push
            (bits_at (shifted_in value 5 i) (bits + 5 - 8) 256)
            (decode_from (bits + 5 - 8) (shifted_in value 5 i) cs)
        else decode_from (bits + 5) (shifted_in value 5 i) cs)
unfolding decode_from
decode_from-symbol bits value i cs below = rw (decode_from, symbol_index-symbol i below) refl

chosen {ℓ} : {A : Type ℓ} {b : Bool} → b ≡ true → (x y : A) → (if b then x else y) ≡ x
chosen h x y = rw h refl

passed {ℓ} : {A : Type ℓ} {b : Bool} → b ≡ false → (x y : A) → (if b then x else y) ≡ y
passed h x y = rw h refl

-- A symbol that completes a byte, and one that does not.
pushing :
    (bits value i byte : ℕ) (cs expected : List ℕ)
    → i < 32
    → leb 8 (bits + 5) ≡ true
    → bits_at (shifted_in value 5 i) (bits + 5 - 8) 256 ≡ byte
    → decode_from (bits + 5 - 8) (shifted_in value 5 i) cs ≡ some expected
    → decode_from bits value (symbol i ∷ cs) ≡ some (byte ∷ expected)
unfolding push
pushing bits value i byte cs expected below full e h =
    decode_from-symbol bits value i cs below
    ∙ chosen full
        (push (bits_at (shifted_in value 5 i) (bits + 5 - 8) 256)
          (decode_from (bits + 5 - 8) (shifted_in value 5 i) cs))
        (decode_from (bits + 5) (shifted_in value 5 i) cs)
    ∙ ap (push (bits_at (shifted_in value 5 i) (bits + 5 - 8) 256)) h
    ∙ ap (λ x. some (x ∷ expected)) e

taking :
    (bits value i : ℕ) (cs expected : List ℕ)
    → i < 32
    → leb 8 (bits + 5) ≡ false
    → decode_from (bits + 5) (shifted_in value 5 i) cs ≡ some expected
    → decode_from bits value (symbol i ∷ cs) ≡ some expected
taking bits value i cs expected below short h =
    decode_from-symbol bits value i cs below
    ∙ passed short
        (push (bits_at (shifted_in value 5 i) (bits + 5 - 8) 256)
          (decode_from (bits + 5 - 8) (shifted_in value 5 i) cs))
        (decode_from (bits + 5) (shifted_in value 5 i) cs)
    ∙ h

-- What is left after each number of bits that the encoder holds: the decoder's first byte is made
-- of the bits that it has and those that the encoder still holds.
record Reads (bytes : List ℕ) : Type 0 where
  zero_left : (v u : ℕ) → decode_from 0 u (encode_from 0 v bytes) ≡ some bytes
  three_left :
      (v u : ℕ) → decode_from 5 u (encode_from 3 v bytes) ≡ some ((u % 32 * 8 + v % 8) ∷ bytes)
  one_left :
      (v u : ℕ) → decode_from 7 u (encode_from 1 v bytes) ≡ some ((u % 128 * 2 + v % 2) ∷ bytes)
  four_left :
      (v u : ℕ) → decode_from 4 u (encode_from 4 v bytes) ≡ some ((u % 16 * 16 + v % 16) ∷ bytes)
  two_left :
      (v u : ℕ) → decode_from 6 u (encode_from 2 v bytes) ≡ some ((u % 64 * 4 + v % 4) ∷ bytes)

nothing-Reads : Reads []
unfolding encode_from decode_from
nothing-Reads = record {
  zero_left = λ v u. refl;
  three_left = λ v u. pushing 5 u _ _ [] [] (below_32 _) refl (last_3 v u) refl;
  one_left = λ v u. pushing 7 u _ _ [] [] (below_32 _) refl (last_1 v u) refl;
  four_left = λ v u. pushing 4 u _ _ [] [] (below_32 _) refl (last_4 v u) refl;
  two_left = λ v u. pushing 6 u _ _ [] [] (below_32 _) refl (last_2 v u) refl;
}

with_rest :
    (d x : ℕ) (cs : List ℕ) (a c : ℕ) (bytes : List ℕ)
    → a ≡ c
    → decode_from d x cs ≡ some (a ∷ bytes)
    → decode_from d x cs ≡ some (c ∷ bytes)
with_rest d x cs a c bytes e h = h ∙ ap (λ k. some (k ∷ bytes)) e

byte-Reads : (c : ℕ) (bytes : List ℕ) → c < 256 → Reads bytes → Reads (c ∷ bytes)
unfolding encode_from drain
byte-Reads c bytes h rest = record {
  zero_left = λ v u.
      taking 0 u _ _ _ (below_32 _) refl
        (with_rest _ _ _ _ _ _ (rest_0 v u c h) (rest.three_left (shifted_in v 8 c) _));
  three_left = λ v u. pushing 5 u _ _ _ _ (below_32 _) refl (first_3 v u c h) (
      taking 2 _ _ _ _ (below_32 _) refl
        (with_rest _ _ _ _ _ _ (rest_3 v u c h) (rest.one_left (shifted_in v 8 c) _)));
  one_left = λ v u.
      pushing 7 u _ _ _ _ (below_32 _) refl (first_1 v u c h)
        (with_rest _ _ _ _ _ _ (rest_1 v u c h) (rest.four_left (shifted_in v 8 c) _));
  four_left = λ v u. pushing 4 u _ _ _ _ (below_32 _) refl (first_4 v u c h) (
      taking 1 _ _ _ _ (below_32 _) refl
        (with_rest _ _ _ _ _ _ (rest_4 v u c h) (rest.two_left (shifted_in v 8 c) _)));
  two_left = λ v u. pushing 6 u _ _ _ _ (below_32 _) refl (first_2 v u c h) (
      pushing 3 _ _ _ _ _ (below_32 _) refl (rest_2 v u c h) (rest.zero_left (shifted_in v 8 c) _));
}

bytes-Reads : (bytes : List ℕ) → All IsByte bytes → Reads bytes
bytes-Reads [] all = nothing-Reads
bytes-Reads (c ∷ bytes) (below, all) = byte-Reads c bytes below (bytes-Reads bytes all)

-- Everything that the encoder writes is a symbol.
drain-symbols : (rounds bits value : ℕ) → All IsSymbol (drain rounds bits value).0
unfolding drain
drain-symbols zero bits value = tt
drain-symbols (suc rounds) bits value = elim (Bool-cases (leb 5 bits)) [
  | inl full ↦
      rw (drain, full)
        ((bits_at value (bits - 5) 32, below_32 _, refl), drain-symbols rounds (bits - 5) value)
  | inr short ↦ rw (drain, short) tt
]

All-append : (xs ys : List ℕ) → All IsSymbol xs → All IsSymbol ys → All IsSymbol (xs ++ ys)
All-append [] ys first second = second
All-append (x ∷ xs) ys (one, first) second = (one, All-append xs ys first second)

encode_from-symbols :
    (bytes : List ℕ) (bits value : ℕ) → All IsSymbol (encode_from bits value bytes)
unfolding encode_from
encode_from-symbols [] bits value = elim (Bool-cases (ltb 0 bits)) [
  | inl some_left ↦
      rw (encode_from, some_left) ((shifted_in value (5 - bits) 0 % 32, below_32 _, refl), tt)
  | inr none_left ↦ rw (encode_from, none_left) tt
]
encode_from-symbols (byte ∷ bytes) bits value =
    let next = shifted_in value 8 byte in
    All-append (drain (bits + 8) (bits + 8) next).0 _ (drain-symbols (bits + 8) (bits + 8) next)
      (encode_from-symbols bytes (drain (bits + 8) (bits + 8) next).1 next)

-- Decoding undoes encoding: every buffer of bytes, encoded in base 32, is decoded to itself, if
-- `toUpperCase` keeps the texts that consist of symbols of the alphabet.
pub base32_decode-base32_encode :
    (to_upper_case : List ℕ → List ℕ) (bytes : List ℕ)
    → ((cs : List ℕ) → All IsSymbol cs → to_upper_case cs ≡ cs)
    → All IsByte bytes
    → base32_decode to_upper_case (base32_encode bytes) ≡ some bytes
unfolding base32_decode base32_encode
base32_decode-base32_encode to_upper_case bytes keeps all =
    let text = encode_from 0 0 bytes in
    let symbols = encode_from-symbols bytes 0 0 in
    let reads = bytes-Reads bytes all in
    ap (λ cs. decode_from 0 0 (strip_padding cs)) (keeps text symbols)
    ∙ ap (decode_from 0 0) (strip_padding-symbols text symbols)
    ∙ reads.zero_left 0 0
