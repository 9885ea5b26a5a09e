-- ===== src/Rtcm/Stream.antt =====
-- `rtcm_message_type` and `RtcmStreamParser` of src/rtcm.py. The buffer `_buf` is a list of
-- bytes; a call of `feed` returns what it returns in the source and the buffer that it leaves.
pub mod Rounds
pub mod Encode
pub mod Sound
pub mod Feed
use babilcors.Prelude.{
  ℕ, zero, suc, ◌+◌, ◌-◌, ◌*◌, ◌/◌, ◌^◌, ◌≡◌, Bool, Option, none, some, List, [], ◌∷◌, ◌++◌, ◌==◌,
  ltb, not, length, get_or, take, drop, if◌then◌else◌, bit_and, bit_or,
}
use babilcors.Prelude.Bits.{◌<<<◌, ◌>>>◌}
use babilcors.Rtcm.Crc.{crc24q}

-- `none` for a payload of fewer than two bytes.
unfoldable pub rtcm_message_type : List ℕ → Option ℕ
rtcm_message_type [] = none
rtcm_message_type (b ∷ []) = none
rtcm_message_type (b ∷ c ∷ rest) = some (bit_and (bit_or (b <<< 4) (c >>> 4)) 0xfff)

pub record RtcmFrame : Type 0 where
  pub msg_type : ℕ
  pub raw : List ℕ

-- What one round of the loop in `feed` does: `wait` leaves the loop, `bad` counts an error.
pub data Round : Type 0 where
  wait : List ℕ → Round
  bad : List ℕ → Round
  good : RtcmFrame → List ℕ → Round

-- `while i < n and self._buf[i] != 0xD3: i += 1`, and the deletion of what was passed over.
unfoldable pub to_preamble : List ℕ → List ℕ
to_preamble [] = []
to_preamble (b ∷ rest) = if b == 0xd3 then b ∷ rest else to_preamble rest

-- The payload's length, from the two bytes that follow the preamble.
unfoldable pub payload_length : List ℕ → ℕ
payload_length buf = bit_or (bit_and (get_or buf 1 0) 0x03 <<< 8) (get_or buf 2 0)

unfoldable pub crc_expected : List ℕ → ℕ → ℕ
crc_expected frame total =
    bit_or (bit_or (get_or frame (total - 3) 0 <<< 16) (get_or frame (total - 2) 0 <<< 8))
      (get_or frame (total - 1) 0)

-- The rest of a round, once `total` bytes are there.
unfoldable pub check_frame : List ℕ → ℕ → Round
check_frame buf length' =
    let total = 3 + length' + 3 in
    let frame = take total buf in
    let payload = take length' (drop 3 frame) in
    if not (crc24q (take (total - 3) frame) == crc_expected frame total)
    then bad (drop 1 buf)
    else elim (rtcm_message_type payload) [
      | none ↦ bad (drop 1 buf)
      | some mt ↦ good (record { msg_type = mt; raw = frame }) (drop total buf)
    ]

-- A round on a buffer that begins with the preamble, or is empty.
unfoldable pub round_at : List ℕ → Round
round_at buf =
    if ltb (length buf) 3
    then wait buf
    else if ltb (length buf) (3 + payload_length buf + 3)
    then wait buf
    else check_frame buf (payload_length buf)

unfoldable pub round : List ℕ → Round
round buf = round_at (to_preamble buf)

pub record Fed : Type 0 where
  pub frames : List RtcmFrame
  pub crc_errors : ℕ
  pub buf : List ℕ

-- The `while True` loop with fuel: `none` means that the fuel ran out.
unfoldable pub feed_loop : ℕ → List ℕ → Option Fed
feed_loop zero buf = none
feed_loop (suc fuel) buf = elim (round buf) [
  | wait left ↦ some (record { frames = []; crc_errors = 0; buf = left })
  | bad left ↦ elim (feed_loop fuel left) [
    | none ↦ none
    | some r ↦ some (record r { crc_errors = suc r.crc_errors })
  ]
  | good fr left ↦ elim (feed_loop fuel left) [
    | none ↦ none
    | some r ↦ some (record r { frames = fr ∷ r.frames })
  ]
]

-- `feed`: each round but the last one shortens the buffer, so this fuel is enough.
unfoldable pub feed : List ℕ → List ℕ → Option Fed
feed buf chunk = feed_loop (suc (length (buf ++ chunk))) (buf ++ chunk)
