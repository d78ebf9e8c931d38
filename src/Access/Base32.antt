-- ===== src/Access/Base32.antt =====
-- `base32Encode` and `base32Decode` of apps/api/src/modules/auth/mfa.ts. A text is the list of its
-- code points, a buffer a list of numbers below 256, and `value` an integer of 32 bits, from which
-- bits are lost on the left.
pub mod Alphabet
pub mod Bits
pub mod Draining
pub mod RoundTrip
use company_erp.Base.{
  ℕ, zero, suc, ◌+◌, ◌-◌, ◌*◌, ◌/◌, ◌%◌, ◌^◌, ltb, leb, ◌==◌, Bool, true, false, Option, none, some,
  List, [], ◌∷◌, ◌++◌, if◌then◌else◌,
}
use company_erp.Base.Text.{codes}

-- `BASE32_ALPHABET`
abbrev pub alphabet : List ℕ
alphabet = codes "ABCDEFGHIJKLMNOPQRSTUVWXYZ234567"

nth : List ℕ → ℕ → ℕ
nth [] i = 0
nth (c ∷ cs) zero = c
nth (c ∷ cs) (suc i) = nth cs i

-- `BASE32_ALPHABET[i]`
unfoldable pub symbol : ℕ → ℕ
unfolding nth
symbol i = nth alphabet i

index_from : ℕ → List ℕ → ℕ → Option ℕ
index_from i [] c = none
index_from i (x ∷ xs) c = let rest = index_from (suc i) xs c in if x == c then some i else rest

-- `BASE32_ALPHABET.indexOf(char)`, `none` for -1.
unfoldable pub symbol_index : ℕ → Option ℕ
unfolding index_from
symbol_index c = index_from 0 alphabet c

-- `value >>> k`, and the low bits of it that `& 31` and `& 0xff` keep.
abbrev pub bits_at : ℕ → ℕ → ℕ → ℕ
bits_at value k modulus = value / 2 ^ k % modulus

-- `(value << k) | low`, on 32 bits, for `low` below `2 ^ k`.
abbrev pub shifted_in : ℕ → ℕ → ℕ → ℕ
shifted_in value k low = (value * 2 ^ k + low) % 2 ^ 32

-- `while (bits >= 5)`: the symbols, and the bits that are left. Each round takes five bits off, so
-- `bits` rounds are enough.
unfoldable pub drain : ℕ → ℕ → ℕ → List ℕ × ℕ
unfolding symbol
drain zero bits value = ([], bits)
drain (suc rounds) bits value =
    let rest = drain rounds (bits - 5) value in
    if leb 5 bits then (symbol (bits_at value (bits - 5) 32) ∷ rest.0, rest.1) else ([], bits)

-- `base32Encode`, from the loop on.
unfoldable pub encode_from : ℕ → ℕ → List ℕ → List ℕ
unfolding drain symbol
encode_from bits value [] =
    if ltb 0 bits then symbol (shifted_in value (5 - bits) 0 % 32) ∷ [] else []
encode_from bits value (byte ∷ bytes) =
    let next = shifted_in value 8 byte in
    let (out, left) = drain (bits + 8) (bits + 8) next in out ++ encode_from left next bytes

-- `base32Encode`
unfoldable pub base32_encode : List ℕ → List ℕ
unfolding encode_from
base32_encode bytes = encode_from 0 0 bytes

push : ℕ → Option (List ℕ) → Option (List ℕ)
push byte none = none
push byte (some bytes) = some (byte ∷ bytes)

-- The loop of `base32Decode`, which throws (`none`) on a character outside of the alphabet.
unfoldable pub decode_from : ℕ → ℕ → List ℕ → Option (List ℕ)
unfolding symbol_index push
decode_from bits value [] = some []
decode_from bits value (c ∷ cs) = elim (symbol_index c) [
  | none ↦ none
  | some index ↦
      let next = shifted_in value 5 index in
      let short = decode_from (bits + 5) next cs in
      let full = decode_from (bits + 5 - 8) next cs in
      if leb 8 (bits + 5) then push (bits_at next (bits + 5 - 8) 256) full else short
]

-- A character before what is left of the rest.
unfoldable pub before_stripped : ℕ → List ℕ → List ℕ
before_stripped c [] = if c == b'=' then [] else c ∷ []
before_stripped c (d ∷ ds) = c ∷ d ∷ ds

-- `.replace(/=+$/, "")`
unfoldable pub strip_padding : List ℕ → List ℕ
unfolding before_stripped
strip_padding [] = []
strip_padding (c ∷ cs) = before_stripped c (strip_padding cs)

-- `base32Decode`, over `toUpperCase`.
unfoldable pub base32_decode : (List ℕ → List ℕ) → List ℕ → Option (List ℕ)
unfolding decode_from strip_padding
base32_decode to_upper_case input = decode_from 0 0 (strip_padding (to_upper_case input))
