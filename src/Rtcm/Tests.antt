-- ===== src/Rtcm/Tests.antt =====
-- The theorems on src/rtcm.py at concrete inputs, and runs of the model.
use babilcors.Prelude.{ℕ, ◌≡◌, ◌≢◌, refl, some, List, [], ◌∷◌, ◌++◌, arith, ◌>>=◌}
use babilcors.Prelude.Int.{pos, negsuc}
use babilcors.Rtcm.Crc.{crc24q}
use babilcors.Rtcm.Crc.Detect.{crc24q-detects_one_byte}
use babilcors.Rtcm.Stream.{
  Fed, feed_loop, feed, rtcm_message_type, round, round_at, check_frame, to_preamble,
  payload_length, crc_expected,
}
use babilcors.Rtcm.Stream.Feed.{both, feed-append, feed_total}
use babilcors.Rtcm.Stream.Sound.{ReadsAs, feed-Reads}
use babilcors.Rtcm.Stream.Encode.{Packet, IsPacket, wire, decoded, feed-wire}
use babilcors.Rtcm.Messages.{parse_rtcm_1005_1006}
use babilcors.Rtcm.Messages.Station.{StationPoint, info_of, parse_rtcm_1005_1006-message}

crc24q_abc : crc24q (0x61 ∷ 0x62 ∷ 0x63 ∷ []) ≡ 0x9ff359
unfolding crc24q
crc24q_abc = refl

crc24q-detects_one_byte_example : crc24q (1 ∷ 2 ∷ 3 ∷ []) ≢ crc24q (1 ∷ 7 ∷ 3 ∷ [])
crc24q-detects_one_byte_example =
    crc24q-detects_one_byte (1 ∷ []) (3 ∷ []) 2 7 (omega arith) (omega arith) (omega arith)

abbrev ping : Packet
ping = record { noise = 0 ∷ 1 ∷ []; payload = 0x3e ∷ 0xd0 ∷ 0x01 ∷ []; msg_type = 1005 }

ping-IsPacket : IsPacket ping
unfolding rtcm_message_type
ping-IsPacket = ((omega arith, (omega arith, tt)), omega arith, refl)

feed-wire_example : feed [] (wire (ping ∷ ping ∷ []) (7 ∷ [])) ≡ some (decoded (ping ∷ ping ∷ []))
feed-wire_example =
    feed-wire (ping ∷ ping ∷ []) (7 ∷ []) (ping-IsPacket, (ping-IsPacket, tt)) (omega arith, tt)

feed_total_example : (r : Fed) × (feed (0xd3 ∷ []) (0 ∷ 3 ∷ 0x3e ∷ []) ≡ some r)
feed_total_example = feed_total (0xd3 ∷ []) (0 ∷ 3 ∷ 0x3e ∷ [])

feed-append_example :
    feed [] ((0xd3 ∷ 0 ∷ []) ++ (3 ∷ 0x3e ∷ []))
    ≡ (do r ← feed [] (0xd3 ∷ 0 ∷ []); s ← feed r.buf (3 ∷ 0x3e ∷ []); some (both r s))
feed-append_example = feed-append [] (0xd3 ∷ 0 ∷ []) (3 ∷ 0x3e ∷ [])

feed-Reads_example : ReadsAs ([] ++ wire (ping ∷ ping ∷ []) (7 ∷ [])) (decoded (ping ∷ ping ∷ []))
feed-Reads_example =
    feed-Reads [] (wire (ping ∷ ping ∷ []) (7 ∷ [])) (decoded (ping ∷ ping ∷ [])) feed-wire_example

-- A chunk with a frame whose checksum is wrong: one error, and an empty buffer.
feed_corrupt :
    feed [] (0xd3 ∷ 0 ∷ 2 ∷ 0x3e ∷ 0xd0 ∷ 0 ∷ 0 ∷ 0 ∷ [])
    ≡ some (record { frames = []; crc_errors = 1; buf = [] })
unfolding feed feed_loop round round_at check_frame to_preamble payload_length crc_expected crc24q
feed_corrupt = refl

abbrev station : StationPoint
station = record {
  station_id = 2003;
  itrf = 0;
  gps = 1;
  glonass = 1;
  galileo = 0;
  refstation = 0;
  oscillator = 0;
  quarter = 0;
  x = pos 11140000000;
  y = negsuc 48109999999;
  z = pos 40560000000;
  height = some 15000;
}

abbrev station_payload : List ℕ
station_payload =
    62 ∷ 231 ∷ 211 ∷ 3 ∷ 2 ∷ 151 ∷ 254 ∷ 233 ∷ 0 ∷ 52 ∷ 204 ∷ 107 ∷ 168 ∷ 128 ∷ 9 ∷ 113 ∷ 144 ∷ 124
    ∷ 0 ∷ 58 ∷ 152 ∷ []

parse_rtcm_1005_1006-message_example : parse_rtcm_1005_1006 station_payload ≡ some (info_of station)
parse_rtcm_1005_1006-message_example =
    parse_rtcm_1005_1006-message station station_payload [] (omega arith) refl
