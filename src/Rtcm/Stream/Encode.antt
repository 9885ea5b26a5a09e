-- ===== src/Rtcm/Stream/Encode.antt =====
-- The transport layer of RTCM 3 written as an encoder, an independent description of the frames
-- that src/rtcm.py takes apart, and the parser on what it writes.
use babilcors.Prelude.{
  ℕ, suc, ◌+◌, ◌-◌, ◌/◌, ◌%◌, ◌<◌, ◌≡◌, refl, sym, ◌∙◌, ap, ◌≢◌, some, List, [], ◌∷◌, ◌++◌, map,
  arith, length, get_or, All, length-append, get_or-shift, get_or-append, take-length, bit_or,
  bit_and,
}
use babilcors.Prelude.Bits.{◌<<<◌, bit_or-sum, bit_and-mask}
use babilcors.Rtcm.Crc.{crc24q}
use babilcors.Rtcm.Stream.{
  RtcmFrame, wait, good, rtcm_message_type, to_preamble, payload_length, crc_expected, round_at,
  round, Fed, feed_loop, feed,
}
use babilcors.Rtcm.Stream.Rounds.{payload_length-append}
use babilcors.Rtcm.Stream.Feed.{feed_loop-suc, feed_loop-more, feed_total, after, add_frame}
use babilcors.Rtcm.Stream.Sound.{IsFrame, check_frame-finds}

abbrev pub header : List ℕ → List ℕ
header payload = 0xd3 ∷ (length payload / 256) ∷ (length payload % 256) ∷ payload

abbrev pub crc_bytes : ℕ → List ℕ
crc_bytes c = (c / 65536) ∷ (c / 256 % 256) ∷ (c % 256) ∷ []

-- The preamble, the length in two bytes, the payload, and the checksum in three bytes.
unfoldable pub encode : List ℕ → List ℕ
encode payload = header payload ++ crc_bytes (crc24q (header payload))

length-encode : (payload : List ℕ) → length (encode payload) ≡ 3 + length payload + 3
unfolding encode
length-encode payload = omega (arith, length-append payload (crc_bytes (crc24q (header payload))))

payload_length-encode :
    (payload : List ℕ) → length payload < 1024 → payload_length (encode payload) ≡ length payload
unfolding encode payload_length
payload_length-encode payload h = omega (
  arith,
  bit_and-mask 2 (length payload / 256),
  bit_or-sum 8 (bit_and (length payload / 256) 3) (length payload % 256) (omega arith),
)

-- Three bytes put together again.
crc_bytes_join :
    (c : ℕ) → bit_or (bit_or ((c / 65536) <<< 16) ((c / 256 % 256) <<< 8)) (c % 256) ≡ c
crc_bytes_join c =
    let high : bit_or ((c / 65536) <<< 16) ((c / 256 % 256) <<< 8) ≡ (c / 256) <<< 8 =
      omega (arith, bit_or-sum 16 (c / 65536) ((c / 256 % 256) <<< 8) (omega arith)) in
    rw high (omega (arith, bit_or-sum 8 (c / 256) (c % 256) (omega arith)))

crc_expected-encode :
    (payload : List ℕ)
    → crc_expected (encode payload) (3 + length payload + 3) ≡ crc24q (header payload)
unfolding encode crc_expected
crc_expected-encode payload =
    let c = crc24q (header payload) in
    let n = length payload in
    rw
      (
        get_or-shift (header payload) (crc_bytes c) 0 (3 + n + 3 - 3) 0 (omega arith),
        get_or-shift (header payload) (crc_bytes c) 1 (3 + n + 3 - 2) 0 (omega arith),
        get_or-shift (header payload) (crc_bytes c) 2 (3 + n + 3 - 1) 0 (omega arith),
      )
      (crc_bytes_join c)

pub encode-IsFrame :
    (payload : List ℕ) (mt : ℕ)
    → length payload < 1024
    → rtcm_message_type payload ≡ some mt
    → IsFrame (record { msg_type = mt; raw = encode payload })
encode-IsFrame payload mt h typed =
    let tail = crc_bytes (crc24q (header payload)) in
    let size = length-encode payload in
    let same = payload_length-encode payload h in
    record {
      preamble = unfold encode in refl;
      size = rw same size;
      checksum =
          rw (size, crc_expected-encode payload)
            (unfold encode in
              ap crc24q
                (take-length (header payload) tail (3 + length payload + 3 - 3) (omega arith)));
      typed = rw same (
          unfold encode in
          ap rtcm_message_type (take-length payload tail (length payload) refl) ∙ typed);
    }

to_preamble-here : (buf : List ℕ) → get_or buf 0 0 ≡ 0xd3 → to_preamble buf ≡ buf
unfolding to_preamble
to_preamble-here [] e = refl
to_preamble-here (b ∷ buf) e = ground arith

-- A frame at the front of the buffer is found in one round.
pub round-frame :
    (fr : RtcmFrame) (tail : List ℕ) → IsFrame fr → round (fr.raw ++ tail) ≡ good fr tail
unfolding round round_at
round-frame fr tail v =
    let buf = fr.raw ++ tail in
    let here : to_preamble buf ≡ buf =
      to_preamble-here buf (get_or-append 0 fr.raw tail 0 (omega (arith, v.size)) ∙ v.preamble) in
    let same : payload_length buf ≡ payload_length fr.raw =
      payload_length-append fr.raw tail (omega (arith, v.size)) in
    rw here (ground (arith, check_frame-finds fr tail v, same, v.size, length-append fr.raw tail))

-- Bytes with no preamble among them are passed over.
abbrev pub IsNoise : List ℕ → Type 0
IsNoise = All (λ b. b ≢ 0xd3)

to_preamble-noise :
    (noise buf : List ℕ) → IsNoise noise → to_preamble (noise ++ buf) ≡ to_preamble buf
unfolding to_preamble
to_preamble-noise [] buf h = refl
to_preamble-noise (b ∷ noise) buf (h, hs) = ground (arith, to_preamble-noise noise buf hs)

-- A packet on the wire: noise, and then the payload of a message in its frame.
pub record Packet : Type 0 where
  pub noise : List ℕ
  pub payload : List ℕ
  pub msg_type : ℕ

abbrev pub IsPacket : Packet → Type 0
IsPacket p =
    IsNoise p.noise × (length p.payload < 1024) × (rtcm_message_type p.payload ≡ some p.msg_type)

abbrev pub wire : List Packet → List ℕ → List ℕ
wire [] last = last
wire (p ∷ ps) last = p.noise ++ (encode p.payload ++ wire ps last)

abbrev pub frame_of : Packet → RtcmFrame
frame_of p = record { msg_type = p.msg_type; raw = encode p.payload }

round-packet :
    (p : Packet) (tail : List ℕ)
    → IsPacket p
    → round (p.noise ++ (encode p.payload ++ tail)) ≡ good (frame_of p) tail
round-packet p tail (quiet, fits, typed) =
    round-noise ∙ round-frame (frame_of p) tail (encode-IsFrame p.payload p.msg_type fits typed)
  where
    round-noise : round (p.noise ++ (encode p.payload ++ tail)) ≡ round (encode p.payload ++ tail)
    round-noise =
        unfold round in ap round_at (to_preamble-noise p.noise (encode p.payload ++ tail) quiet)

to_preamble-quiet : (noise : List ℕ) → IsNoise noise → to_preamble noise ≡ []
unfolding to_preamble
to_preamble-quiet [] h = refl
to_preamble-quiet (b ∷ noise) (h, hs) = ground (arith, to_preamble-quiet noise hs)

round-quiet : (noise : List ℕ) → IsNoise noise → round noise ≡ wait []
unfolding round round_at
round-quiet noise h = rw (to_preamble-quiet noise h)

-- What is on the wire, as `feed` returns it.
abbrev pub decoded : List Packet → Fed
decoded ps = record { frames = map frame_of ps; crc_errors = 0; buf = [] }

feed_loop-wire :
    (ps : List Packet) (noise : List ℕ)
    → All IsPacket ps
    → IsNoise noise
    → (f : ℕ) × (feed_loop f (wire ps noise) ≡ some (decoded ps))
feed_loop-wire [] noise h quiet =
    (1, feed_loop-suc 0 noise ∙ ap (after 0) (round-quiet noise quiet))
feed_loop-wire (p ∷ ps) noise (h, hs) quiet =
    let (f, e) = feed_loop-wire ps noise hs quiet in
    (
      suc f,
      feed_loop-suc f (wire (p ∷ ps) noise)
          ∙ ap (after f) (round-packet p (wire ps noise) h)
          ∙ ap (add_frame (frame_of p)) e,
    )

-- Payloads that are framed and sent, with bytes other than the preamble before, between and after
-- the frames, come out of `feed` as exactly these frames, with no error and an empty buffer.
pub feed-wire :
    (ps : List Packet) (noise : List ℕ)
    → All IsPacket ps
    → IsNoise noise
    → feed [] (wire ps noise) ≡ some (decoded ps)
unfolding feed
feed-wire ps noise h quiet =
    let (f, e) = feed_loop-wire ps noise h quiet in
    let bytes = wire ps noise in
    let (r, found) = feed_total [] bytes in
    let n = suc (length bytes) in
    found
    ∙ sym (feed_loop-more n (n + f) bytes r (omega arith) found)
    ∙ feed_loop-more f (n + f) bytes (decoded ps) (omega arith) e
