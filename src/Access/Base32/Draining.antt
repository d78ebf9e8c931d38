-- ===== src/Access/Base32/Draining.antt =====
-- The inner loop of `base32Encode` ends.
use company_erp.Base.{
  ◌≡◌, refl, inl, inr, ℕ, zero, suc, ◌-◌, ◌≤◌, ◌<◌, leb, false, Bool-cases, arith,
}
use company_erp.Access.Base32.{drain}

small : (bits : ℕ) → bits ≤ 0 → leb 5 bits ≡ false
small bits h = ground arith

less : (bits : ℕ) → leb 5 bits ≡ false → bits < 5
less bits h = ground arith

drain_any :
    (rounds more bits value : ℕ)
    → bits ≤ rounds
    → bits ≤ more
    → drain rounds bits value ≡ drain more bits value
unfolding drain
drain_any zero zero bits value enough also = refl
drain_any zero (suc more) bits value enough also = rw (drain, small bits enough) refl
drain_any (suc rounds) zero bits value enough also = rw (drain, small bits also) refl
drain_any (suc rounds) (suc more) bits value enough also = elim (Bool-cases (leb 5 bits)) [
  | inl full ↦
      rw (drain, full, drain_any rounds more (bits - 5) value (omega arith) (omega arith)) refl
  | inr short ↦ rw (drain, short) refl
]

drain_short : (rounds bits value : ℕ) → bits ≤ rounds → (drain rounds bits value).1 < 5
unfolding drain
drain_short zero bits value enough = omega arith
drain_short (suc rounds) bits value enough = elim (Bool-cases (leb 5 bits)) [
  | inl full ↦ rw (drain, full) (drain_short rounds (bits - 5) value (omega arith))
  | inr short ↦ rw (drain, short) (less bits short)
]

-- The inner loop of the encoder ends: any number of rounds that is no less than the bits gives
-- what the number of bits itself gives, and leaves fewer than five bits.
pub drain_enough :
    (rounds bits value : ℕ)
    → bits ≤ rounds
    → (drain rounds bits value ≡ drain bits bits value) × ((drain rounds bits value).1 < 5)
drain_enough rounds bits value enough =
    (drain_any rounds bits bits value enough (omega arith), drain_short rounds bits value enough)
