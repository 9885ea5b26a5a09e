-- ===== src/Rtcm/BitReader.antt =====
-- `_BitReader` of src/rtcm.py. A method is an action that changes `bitpos`; `none` is the
-- `IndexError`, after which the reader is never looked at again.
pub mod Bits
use babilcors.Prelude.{
  ℕ, zero, suc, ◌+◌, ◌-◌, ◌*◌, ◌/◌, ◌%◌, ◌^◌, ◌≡◌, Bool, Option, none, some, List, [], ◌∷◌, ◌==◌,
  leb, ltb, length, get_or, take, drop, if◌then◌else◌, bit_and, bit_or,
}
use babilcors.Prelude.Bits.{◌<<<◌, ◌>>>◌}

pub record BitReader : Type 0 where
  pub bytes : List ℕ
  pub bitpos : ℕ

abbrev pub Reader : Type 0 → Type 0
Reader A = BitReader → Option (A × BitReader)

infixl 5 ◌>>=◌ ◌>>◌
abbrev pub ◌>>=◌ : {A B : Type 0} → Reader A → (A → Reader B) → Reader B
◌>>=◌ m f br = elim (m br) [ none ↦ none | some (a, br') ↦ f a br' ]

abbrev pub ◌>>◌ : {A B : Type 0} → Reader A → Reader B → Reader B
m >> k = m >>= λ _. k

abbrev pub pure : {A : Type 0} → A → Reader A
pure a br = some (a, br)

abbrev pub fail : {A : Type 0} → Reader A
fail br = none

unfoldable pub skip : ℕ → Reader (Unit {0})
skip nbits br = some (tt, record br { bitpos = br.bitpos + nbits })

-- One round of the loop of `read_bits`: the bit at `bitpos`.
unfoldable pub read_bit : ℕ → Reader ℕ
read_bit val br =
    let byte_idx = br.bitpos / 8 in
    let off = 7 - br.bitpos % 8 in
    if leb (length br.bytes) byte_idx
    then none
    else some (
      bit_or (val <<< 1) (bit_and (get_or br.bytes byte_idx 0 >>> off) 1),
      record br { bitpos = br.bitpos + 1 },
    )

unfoldable pub read_bits_from : ℕ → ℕ → Reader ℕ
read_bits_from zero val = pure val
read_bits_from (suc nbits) val = read_bit val >>= read_bits_from nbits

unfoldable pub read_bits : ℕ → Reader ℕ
read_bits nbits = read_bits_from nbits 0

-- The position of the next byte.
unfoldable pub align : ℕ → ℕ
align bitpos = if bitpos % 8 == 0 then bitpos else bitpos + (8 - bitpos % 8)

unfoldable pub read_bytes : ℕ → Reader (List ℕ)
read_bytes n br =
    let start = align br.bitpos in
    let byte_idx = start / 8 in
    let end = if ltb (length br.bytes) (byte_idx + n) then length br.bytes else byte_idx + n in
    some (take (end - byte_idx) (drop byte_idx br.bytes), record br { bitpos = start + n * 8 })
