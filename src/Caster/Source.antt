-- ===== src/Caster/Source.antt =====
-- `_handle_source` of src/caster.py: whether a source is accepted, and what its bytes do.
pub mod Limit
pub mod Frames
pub mod Wire
mod Tests
use babilcors.Prelude.{
  ℕ, suc, ◌+◌, ◌-◌, ◌≡◌, Bool, true, false, not, ◌&&◌, ◌||◌, Option, none, some, String, List, [],
  ◌∷◌, ◌++◌, ◌==◌, ltb, leb, length, take, drop, if◌then◌else◌,
}
use babilcors.Prelude.Int.{ℤ, pos_part}
use babilcors.Prelude.Dict.{Eq, string_eq, Dict, lookup, insert}
use babilcors.Rtcm.Stream.{RtcmFrame, Fed, feed}
use babilcors.Rtcm.Messages.{Info, parse_rtcm_1033, parse_rtcm_1005_1006, parse_rtcm_1007_1008}
use babilcors.Caster.Hub.{
  Hub, attach_source, detach_source, record_rtcm_frame, record_rtcm_crc_errors, record_station_info,
  publish_rtcm_frame, on_source_data,
}
use babilcors.Caster.Server.{Server, has, get_or_create_hub}

-- The configuration of sources; `requires_cert` is `_require_mtls_for_source` with a certificate
-- of the server configured.
pub record Config : Type 0 where
  pub password : String
  pub mountpoints : List String
  pub requires_cert : Bool
  pub max_sources_total : ℤ

-- The words of the first line, the peer's address, and whether it shows a certificate.
pub record Offer : Type 0 where
  pub password : String
  pub mountpoint : String
  pub addr : String
  pub has_cert : Bool

pub data Reply : Type 0 where
  forbidden cert_required too_many busy attached : Reply

unfoldable pub is_empty : List String → Bool
is_empty [] = true
is_empty (x ∷ xs) = false

unfoldable pub has_source : Hub → ℕ
has_source h = elim h.source_addr [ none ↦ 0 | some a ↦ 1 ]

-- The hubs that have a source.
unfoldable pub active : Dict String Hub → ℕ
active [] = 0
active ((m, h) ∷ rest) = has_source h + active rest

unfoldable pub put_hub : String → Hub → Server → Server
put_hub m h s = record s { mountpoints = insert m h s.mountpoints }

unfoldable pub answer_attach : String → Server → Hub × Bool → Server × Reply
answer_attach m s (h, true) = (put_hub m h s, attached)
answer_attach m s (h, false) = (put_hub m h s, busy)

unfoldable pub is_crowded : Config → Hub → Server → Bool
is_crowded c hub s =
    ltb 0 (pos_part c.max_sources_total)
    && (has_source hub == 0)
    && leb (pos_part c.max_sources_total) (active s.mountpoints)

unfoldable pub try_attach : Config → Offer → Hub × Server → Server × Reply
try_attach c o (hub, s) =
    if c.requires_cert && not o.has_cert
    then (s, cert_required)
    else if is_crowded c hub s
    then (s, too_many)
    else answer_attach o.mountpoint s (attach_source o.addr hub)

unfoldable pub accept_source : Config → Offer → Server → Server × Reply
accept_source c o s =
    if not (string_eq.beq o.password c.password)
    then (record s { source_unauth_total = s.source_unauth_total + 1 }, forbidden)
    else if not (is_empty c.mountpoints) && not (has o.mountpoint c.mountpoints)
    then (s, forbidden)
    else try_attach c o (get_or_create_hub o.mountpoint s)

-- The end of the loop, on each way out of it.
unfoldable pub end_source : String → Server → Server
end_source m s = elim (lookup m s.mountpoints) [
  | none ↦ s
  | some hub ↦ put_hub m (detach_source hub) s
]

-- `fr.raw[3:-3]`.
unfoldable pub payload_of : RtcmFrame → List ℕ
payload_of fr = take (length fr.raw - 6) (drop 3 fr.raw)

unfoldable pub info_of : RtcmFrame → Option Info
info_of fr =
    if fr.msg_type == 1033
    then parse_rtcm_1033 (payload_of fr)
    else if (fr.msg_type == 1005) || (fr.msg_type == 1006)
    then parse_rtcm_1005_1006 (payload_of fr)
    else if (fr.msg_type == 1007) || (fr.msg_type == 1008)
    then parse_rtcm_1007_1008 (payload_of fr)
    else none

unfoldable pub record_info : Option Info → Hub → Hub
record_info none h = h
record_info (some info) h = record_station_info info h

-- The body of the loop over the frames.
unfoldable pub handle_frame : ℕ → RtcmFrame → Hub → Hub
handle_frame now fr h =
    publish_rtcm_frame fr.raw fr.msg_type
      (record_info (info_of fr) (record_rtcm_frame now fr.msg_type h))

-- The loop over the frames, and `out`.
unfoldable pub handle_frames : ℕ → List RtcmFrame → Hub → Hub × List ℕ
handle_frames now [] h = (h, [])
handle_frames now (fr ∷ frs) h =
    let (h', out) = handle_frames now frs (handle_frame now fr h) in (h', fr.raw ++ out)

-- A source's parser and its hub.
pub record Feeding : Type 0 where
  pub buf : List ℕ
  pub hub : Hub

-- With no frame, `on_source_data` is not called; it does nothing with no bytes.
unfoldable pub handle_fed : ℕ → Fed → Hub → Feeding
handle_fed now r h =
    let (h', out) = handle_frames now r.frames (record_rtcm_crc_errors r.crc_errors h) in
    record { buf = r.buf; hub = on_source_data out now h' }

-- One round of the loop, on a chunk that was read at `now`.
unfoldable pub receive : ℕ → List ℕ → Feeding → Option Feeding
receive now chunk f = elim (feed f.buf chunk) [
  | none ↦ none
  | some r ↦ some (handle_fed now r f.hub)
]

-- The loop over the chunks that are read. An empty one is the end of the source's bytes, and what
-- stands behind it is not read.
unfoldable pub receive_all : List (ℕ × List ℕ) → Feeding → Option Feeding
receive_all [] f = some f
receive_all ((now, []) ∷ rest) f = some f
receive_all ((now, b ∷ chunk) ∷ rest) f = elim (receive now (b ∷ chunk) f) [
  | none ↦ none
  | some f' ↦ receive_all rest f'
]
