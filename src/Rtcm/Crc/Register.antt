-- ===== src/Rtcm/Crc/Register.antt =====
-- The register of `crc24q` stays within 24 bits, so the final mask changes nothing.
use babilcors.Prelude.{
  ℕ, zero, suc, ◌*◌, ◌^◌, ◌≤◌, ◌<◌, ◌≡◌, refl, ◌⊎◌, inl, inr, List, [], ◌∷◌, ◌++◌, arith, bit_and,
  bit_xor,
}
use babilcors.Prelude.Bits.{◌<<<◌, bit_xor-lt, bit_xor-top, bit_and-bit, bit_and-mask}
use babilcors.Rtcm.Crc.{crc24q_poly, shift_once, shift_times, add_byte, crc_from, crc24q}

-- The two branches of a round, as arithmetic on a register of 24 bits.
pub shift_once-low : (c : ℕ) → c < 2 ^ 23 → shift_once c ≡ c * 2
unfolding shift_once
shift_once-low c h = ground (arith, bit_and-bit 24 (c * 2))

pub shift_once-high : (c : ℕ) → 2 ^ 23 ≤ c → c < 2 ^ 24 → shift_once c ≡ bit_xor (c * 2) crc24q_poly
unfolding shift_once
shift_once-high c h h' = ground (arith, bit_and-bit 24 (c * 2))

pub half_cases : (c : ℕ) → (c < 2 ^ 23) ⊎ (2 ^ 23 ≤ c)
half_cases c = omega arith

pub shift_once-lt : (c : ℕ) → c < 2 ^ 24 → shift_once c < 2 ^ 24
shift_once-lt c h = elim (half_cases c) [
  | inl low ↦ omega (arith, shift_once-low c low)
  | inr high ↦
      rw (shift_once-high c high h)
        (bit_xor-top 24 (c * 2) crc24q_poly (omega arith) (omega arith) (omega arith) (omega arith))
]

pub shift_times-lt : (n c : ℕ) → c < 2 ^ 24 → shift_times n c < 2 ^ 24
unfolding shift_times
shift_times-lt zero c h = h
shift_times-lt (suc n) c h = shift_times-lt n (shift_once c) (shift_once-lt c h)

pub byte_high-lt : (b : ℕ) → bit_and b 0xff <<< 16 < 2 ^ 24
byte_high-lt b = omega (arith, bit_and-mask 8 b)

pub add_byte-lt : (c b : ℕ) → c < 2 ^ 24 → add_byte c b < 2 ^ 24
unfolding add_byte
add_byte-lt c b h =
    shift_times-lt 8 (bit_xor c (bit_and b 0xff <<< 16))
      (bit_xor-lt 24 c (bit_and b 0xff <<< 16) h (byte_high-lt b))

pub crc_from-lt : (c : ℕ) (bytes : List ℕ) → c < 2 ^ 24 → crc_from c bytes < 2 ^ 24
unfolding crc_from
crc_from-lt c [] h = h
crc_from-lt c (b ∷ bytes) h = crc_from-lt (add_byte c b) bytes (add_byte-lt c b h)

pub crc_from-append : (c : ℕ) (xs ys : List ℕ) → crc_from c (xs ++ ys) ≡ crc_from (crc_from c xs) ys
unfolding crc_from
crc_from-append c [] ys = refl
crc_from-append c (x ∷ xs) ys = crc_from-append (add_byte c x) xs ys

-- The mask of the last line keeps the whole register.
pub crc24q-eq-crc_from : (bytes : List ℕ) → crc24q bytes ≡ crc_from 0 bytes
crc24q-eq-crc_from bytes =
    unfold crc24q in
    omega (arith, bit_and-mask 24 (crc_from 0 bytes), crc_from-lt 0 bytes (omega arith))

pub crc24q-lt : (bytes : List ℕ) → crc24q bytes < 2 ^ 24
crc24q-lt bytes = omega (arith, crc24q-eq-crc_from bytes, crc_from-lt 0 bytes (omega arith))
