-- ===== src/Rtcm/Crc/Detect.antt =====
-- What `crc24q` detects.
use babilcors.Prelude.{
  ℕ, zero, suc, ◌*◌, ◌^◌, ◌<◌, ◌≡◌, inl, inr, ◌∙◌, sym, ap, ◌≢◌, List, [], ◌∷◌, ◌++◌, arith,
  bit_and, bit_xor,
}
use babilcors.Prelude.Bits.{
  ◌<<<◌, bit_xor-lt, bit_xor-cancel, bit_xor-parity, bit_xor_comm, bit_and-mask,
}
use babilcors.Rtcm.Crc.{crc24q_poly, shift_once, shift_times, add_byte, crc_from, crc24q}
use babilcors.Rtcm.Crc.Register.{
  shift_once-low, shift_once-high, half_cases, shift_once-lt, byte_high-lt, add_byte-lt,
  crc_from-lt, crc_from-append, crc24q-eq-crc_from,
}

bit_xor-injective :
    (k a b c : ℕ) → a < 2 ^ k → b < 2 ^ k → c < 2 ^ k → bit_xor a c ≡ bit_xor b c → a ≡ b
bit_xor-injective k a b c ha hb hc e =
    sym (bit_xor-cancel k a c ha hc) ∙ ap (λ t. bit_xor t c) e ∙ bit_xor-cancel k b c hb hc

shift_once-injective : (a b : ℕ) → a < 2 ^ 24 → b < 2 ^ 24 → shift_once a ≡ shift_once b → a ≡ b
shift_once-injective a b ha hb e = elim (half_cases a) [
  | inl low ↦ elim (half_cases b) [
    | inl low' ↦ omega (arith, shift_once-low a low, shift_once-low b low')
    | inr high' ↦ omega (
      arith,
      shift_once-low a low,
      shift_once-high b high' hb,
      bit_xor-parity (b * 2) crc24q_poly,
    )
  ]
  | inr high ↦ elim (half_cases b) [
    | inl low' ↦ omega (
      arith,
      shift_once-high a high ha,
      shift_once-low b low',
      bit_xor-parity (a * 2) crc24q_poly,
    )
    | inr high' ↦
        let doubled : a * 2 ≡ b * 2 =
          bit_xor-injective 25 (a * 2) (b * 2) crc24q_poly (omega arith) (omega arith) (omega arith)
            (sym (shift_once-high a high ha) ∙ e ∙ shift_once-high b high' hb) in
        omega arith
  ]
]

shift_times-injective :
    (n a b : ℕ) → a < 2 ^ 24 → b < 2 ^ 24 → shift_times n a ≡ shift_times n b → a ≡ b
unfolding shift_times
shift_times-injective zero a b ha hb e = e
shift_times-injective (suc n) a b ha hb e = shift_once-injective a b ha hb (
    shift_times-injective n (shift_once a) (shift_once b) (shift_once-lt a ha) (shift_once-lt b hb)
      e)

add_byte-injective : (a c b : ℕ) → a < 2 ^ 24 → c < 2 ^ 24 → add_byte a b ≡ add_byte c b → a ≡ c
unfolding add_byte
add_byte-injective a c b ha hc e =
    let t = bit_and b 0xff <<< 16 in
    bit_xor-injective 24 a c t ha hc (byte_high-lt b) (
      shift_times-injective 8 (bit_xor a t) (bit_xor c t) (bit_xor-lt 24 a t ha (byte_high-lt b))
        (bit_xor-lt 24 c t hc (byte_high-lt b)) e)

add_byte-injective_byte :
    (c x y : ℕ) → c < 2 ^ 24 → x < 256 → y < 256 → add_byte c x ≡ add_byte c y → x ≡ y
unfolding add_byte
add_byte-injective_byte c x y hc hx hy e =
    let t = bit_and x 0xff <<< 16 in
    let u = bit_and y 0xff <<< 16 in
    let ht : t < 2 ^ 24 = byte_high-lt x in
    let hu : u < 2 ^ 24 = byte_high-lt y in
    let registers : bit_xor c t ≡ bit_xor c u =
      shift_times-injective 8 (bit_xor c t) (bit_xor c u) (bit_xor-lt 24 c t hc ht)
        (bit_xor-lt 24 c u hc hu) e in
    let bytes : t ≡ u =
      bit_xor-injective 24 t u c ht hu hc
        (bit_xor_comm 24 t c ht hc ∙ registers ∙ bit_xor_comm 24 c u hc hu) in
    omega (arith, bit_and-mask 8 x, bit_and-mask 8 y)

crc_from-injective :
    (a c : ℕ) (bytes : List ℕ)
    → a < 2 ^ 24
    → c < 2 ^ 24
    → crc_from a bytes ≡ crc_from c bytes
    → a ≡ c
unfolding crc_from
crc_from-injective a c [] ha hc e = e
crc_from-injective a c (b ∷ bytes) ha hc e = add_byte-injective a c b ha hc (
    crc_from-injective (add_byte a b) (add_byte c b) bytes (add_byte-lt a b ha) (add_byte-lt c b hc)
      e)

-- Two messages that differ in exactly one byte never have the same checksum.
pub crc24q-detects_one_byte :
    (before after : List ℕ) (x y : ℕ)
    → x < 256
    → y < 256
    → x ≢ y
    → crc24q (before ++ x ∷ after) ≢ crc24q (before ++ y ∷ after)
unfolding crc_from
crc24q-detects_one_byte before after x y hx hy ne same =
    let c = crc_from 0 before in
    let hc : c < 2 ^ 24 = crc_from-lt 0 before (omega arith) in
    let ends : crc_from (add_byte c x) after ≡ crc_from (add_byte c y) after =
      sym (crc_from-append 0 before (x ∷ after))
      ∙ sym (crc24q-eq-crc_from (before ++ x ∷ after))
      ∙ same
      ∙ crc24q-eq-crc_from (before ++ y ∷ after)
      ∙ crc_from-append 0 before (y ∷ after) in
    ne (
      add_byte-injective_byte c x y hc hx hy (
        crc_from-injective (add_byte c x) (add_byte c y) after (add_byte-lt c x hc)
          (add_byte-lt c y hc) ends))
