-- ===== src/Rtcm/Crc.antt =====
-- `crc24q` of src/rtcm.py. Bytes are numbers below 256, the register is a number.
pub mod Register
pub mod Detect
use babilcors.Prelude.{
  ℕ, zero, suc, ◌^◌, Bool, List, [], ◌∷◌, ◌==◌, if◌then◌else◌, bit_and, bit_xor,
}
use babilcors.Prelude.Bits.{◌<<<◌}

abbrev pub crc24q_poly : ℕ
crc24q_poly = 0x1864cfb

-- One round of the inner loop: shift left, and reduce if bit 24 came out.
pub shift_once : ℕ → ℕ
shift_once crc =
    let shifted = crc <<< 1 in
    if bit_and shifted 0x1000000 == 0 then shifted else bit_xor shifted crc24q_poly

-- `for _ in range(n)`.
pub shift_times : ℕ → ℕ → ℕ
unfolding shift_once
shift_times zero crc = crc
shift_times (suc n) crc = shift_times n (shift_once crc)

pub add_byte : ℕ → ℕ → ℕ
unfolding shift_times
add_byte crc b = shift_times 8 (bit_xor crc (bit_and b 0xff <<< 16))

pub crc_from : ℕ → List ℕ → ℕ
unfolding add_byte
crc_from crc [] = crc
crc_from crc (b ∷ rest) = crc_from (add_byte crc b) rest

unfoldable pub crc24q : List ℕ → ℕ
unfolding crc_from
crc24q bytes = bit_and (crc_from 0 bytes) 0xffffff
