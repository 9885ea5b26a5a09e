-- ===== src/Rtcm/Messages.antt =====
-- The decoders of station messages of src/rtcm.py. A Python dictionary is an association list;
-- `none` is the `None` that a decoder returns, also for an exception that it catches.
pub mod Station
use babilcors.Prelude.{
  ℕ, zero, suc, ◌+◌, ◌^◌, ◌≡◌, Bool, ◌||◌, ◌&&◌, Option, none, some, String, List, [], ◌∷◌, ◌++◌,
  ◌==◌, leb, ltb, if◌then◌else◌, bit_and, keep_if,
}
use mathlib.Core.List.{reverse}
use babilcors.Prelude.Int.{ℤ, pos, sub_ℕ}
use babilcors.Rtcm.BitReader.{
  BitReader, Reader, ◌>>=◌, ◌>>◌, pure, fail, skip, read_bits, read_bytes,
}

-- Text is a list of code points; `scaled` is a float that is a multiple of 0.0001.
pub data Value : Type 0 where
  text : List ℕ → Value
  number : ℕ → Value
  scaled : ℤ → Value
  null : Value

abbrev pub Info : Type 0
Info = List (String × Value)

-- The ASCII characters that `str.strip` takes off.
abbrev pub is_space : ℕ → Bool
is_space c = (leb 9 c && leb c 13) || (leb 28 c && leb c 32)

unfoldable pub lstrip : List ℕ → List ℕ
lstrip [] = []
lstrip (c ∷ rest) = if is_space c then lstrip rest else c ∷ rest

unfoldable pub strip : List ℕ → List ℕ
strip s = reverse (lstrip (reverse (lstrip s)))

-- `.decode("ascii", errors="ignore")`.
unfoldable pub decode_ascii : List ℕ → List ℕ
decode_ascii bytes = keep_if (λ b. ltb b 128) bytes

-- A length of 8 bits, and as many bytes of text.
unfoldable pub read_text : Reader (List ℕ)
read_text = do len ← read_bits 8; bytes ← read_bytes len; pure (strip (decode_ascii bytes))

unfoldable pub decode_1033 : Reader Info
decode_1033 = do
  skip 12
  station_id ← read_bits 12
  ant_desc ← read_text
  ant_setup_id ← read_bits 8
  ant_serial ← read_text
  rx_desc ← read_text
  rx_ver ← read_text
  rx_serial ← read_text
  pure (
      ("antenna_descriptor", text ant_desc)
      ∷ ("antenna_serial", text ant_serial)
      ∷ ("receiver_descriptor", text rx_desc)
      ∷ ("receiver_version", text rx_ver)
      ∷ ("receiver_serial", text rx_serial)
      ∷ [])

-- A decoder on a payload: the reader at its start, and what it returns.
abbrev pub run : Reader Info → List ℕ → Option Info
run m payload = elim (m (record { bytes = payload; bitpos = 0 })) [
  | none ↦ none
  | some (info, br) ↦ some info
]

unfoldable pub parse_rtcm_1033 : List ℕ → Option Info
parse_rtcm_1033 = run decode_1033

-- `s38`: two's complement of 38 bits.
abbrev pub signed38 : ℕ → ℤ
signed38 v = if bit_and v (2 ^ 37) == 0 then pos v else sub_ℕ v (2 ^ 38)

unfoldable pub s38 : Reader ℤ
s38 = do v ← read_bits 38; pure (signed38 v)

unfoldable pub read_height : ℕ → Reader Value
read_height mt = if mt == 1006 then (do hv ← read_bits 16; pure (scaled (pos hv))) else pure null

unfoldable pub decode_coordinates : ℕ → Reader Info
decode_coordinates mt = do
  stid ← read_bits 12
  itrf ← read_bits 6
  gps ← read_bits 1
  glonass ← read_bits 1
  galileo ← read_bits 1
  refstation ← read_bits 1
  x ← s38
  oscillator ← read_bits 2
  y ← s38
  quarter ← read_bits 2
  z ← s38
  h ← read_height mt
  pure (
      ("station_id", number stid)
      ∷ ("ecef_x_m", scaled x)
      ∷ ("ecef_y_m", scaled y)
      ∷ ("ecef_z_m", scaled z)
      ∷ ("antenna_height_m", h)
      ∷ [])

unfoldable pub decode_1005_1006 : Reader Info
decode_1005_1006 = do
  mt ← read_bits 12
  if (mt == 1005) || (mt == 1006) then decode_coordinates mt else fail

unfoldable pub parse_rtcm_1005_1006 : List ℕ → Option Info
parse_rtcm_1005_1006 = run decode_1005_1006

unfoldable pub read_serial : ℕ → Reader (List ℕ)
read_serial mt = if mt == 1008 then read_text else pure []

-- An empty serial is left out of the dictionary.
abbrev pub with_serial : List ℕ → Info → Info
with_serial [] out = out
with_serial (c ∷ rest) out = out ++ ("antenna_serial", text (c ∷ rest)) ∷ []

unfoldable pub decode_descriptor : ℕ → Reader Info
decode_descriptor mt = do
  station_id ← read_bits 12
  desc ← read_text
  setup_id ← read_bits 8
  serial ← read_serial mt
  pure (with_serial serial (("antenna_descriptor", text desc) ∷ []))

unfoldable pub decode_1007_1008 : Reader Info
decode_1007_1008 = do
  mt ← read_bits 12
  if (mt == 1007) || (mt == 1008) then decode_descriptor mt else fail

unfoldable pub parse_rtcm_1007_1008 : List ℕ → Option Info
parse_rtcm_1007_1008 = run decode_1007_1008
