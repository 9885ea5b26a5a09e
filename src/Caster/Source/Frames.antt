-- ===== src/Caster/Source/Frames.antt =====
-- What the frames of one chunk add to the hub's counts.
use babilcors.Prelude.{
  ℕ, ◌+◌, ◌≡◌, refl, ap, ◌∙◌, Option, none, some, List, [], ◌∷◌, ◌++◌, length, length-append, map,
  sum, arith,
}
use babilcors.Rtcm.Stream.{RtcmFrame, Fed}
use babilcors.Rtcm.Messages.{Info}
use babilcors.Caster.Hub.{
  offer, offer_all, record_dropped_bytes, Hub, Session, record_rtcm_frame, record_rtcm_crc_errors,
  record_station_info, publish_rtcm_frame, on_source_data,
}
use babilcors.Caster.Hub.Fanout.{on_source_data-Offered}
use babilcors.Caster.Source.{info_of, record_info, handle_frame, handle_frames, handle_fed}

-- Only these of a hub's counts grow.
pub record Grown (frames errors bytes : ℕ) (h h' : Hub) : Type 0 where
  pub counted : h'.rtcm_frames_total ≡ h.rtcm_frames_total + frames
  pub refused : h'.rtcm_crc_errors_total ≡ h.rtcm_crc_errors_total + errors
  pub received : h'.rx_bytes ≡ h.rx_bytes + bytes

record_info-Grown : (o : Option Info) (h : Hub) → Grown 0 0 0 h (record_info o h)
unfolding record_info record_station_info
record_info-Grown none h = ground arith
record_info-Grown (some info) h = ground arith

publish-Grown : (raw : List ℕ) (t : ℕ) (h : Hub) → Grown 0 0 0 h (publish_rtcm_frame raw t h)
unfolding publish_rtcm_frame
publish-Grown raw t h = ground arith

handle_frame-Grown : (now : ℕ) (fr : RtcmFrame) (h : Hub) → Grown 1 0 0 h (handle_frame now fr h)
unfolding handle_frame record_rtcm_frame
handle_frame-Grown now fr h =
    let h₁ = record_rtcm_frame now fr.msg_type h in
    let g₂ = record_info-Grown (info_of fr) h₁ in
    let g₃ = publish-Grown fr.raw fr.msg_type (record_info (info_of fr) h₁) in
    record {
      counted = omega (arith, g₂.counted, g₃.counted);
      refused = omega (arith, g₂.refused, g₃.refused);
      received = omega (arith, g₂.received, g₃.received);
    }

abbrev pub size_of : List RtcmFrame → ℕ
size_of frs = sum (map (λ fr. length fr.raw) frs)

handle_frames-Grown :
    (now : ℕ) (frs : List RtcmFrame) (h : Hub)
    → Grown (length frs) 0 0 h (handle_frames now frs h).0
      × (length (handle_frames now frs h).1 ≡ size_of frs)
unfolding handle_frames
handle_frames-Grown now [] h = (ground arith, refl)
handle_frames-Grown now (fr ∷ frs) h =
    let g₁ = handle_frame-Grown now fr h in
    let (g₂, size) = handle_frames-Grown now frs (handle_frame now fr h) in
    (
      record {
        counted = omega (arith, g₁.counted, g₂.counted);
        refused = omega (arith, g₁.refused, g₂.refused);
        received = omega (arith, g₁.received, g₂.received);
      },
      omega (arith, length-append fr.raw (handle_frames now frs (handle_frame now fr h)).1, size),
    )

record_dropped_bytes-Grown : (n : ℕ) (h : Hub) → Grown 0 0 0 h (record_dropped_bytes n h)
unfolding record_dropped_bytes
record_dropped_bytes-Grown n h = ground arith

offer_all-Grown :
    (chunk : List ℕ) (now : ℕ) (ss : List Session) (h : Hub)
    → Grown 0 0 0 h (offer_all chunk now ss h)
unfolding offer_all
offer_all-Grown chunk now [] h = ground arith
offer_all-Grown chunk now (s ∷ ss) h =
    let h₁ : Hub = record h { rovers = h.rovers ++ (offer chunk now s).0 ∷ [] } in
    let g₁ = record_dropped_bytes-Grown (offer chunk now s).1 h₁ in
    let g₂ = offer_all-Grown chunk now ss (record_dropped_bytes (offer chunk now s).1 h₁) in
    record {
      counted = omega (arith, g₁.counted, g₂.counted);
      refused = omega (arith, g₁.refused, g₂.refused);
      received = omega (arith, g₁.received, g₂.received);
    }

on_source_data-Grown :
    (chunk : List ℕ) (now : ℕ) (h : Hub) → Grown 0 0 (length chunk) h (on_source_data chunk now h)
unfolding on_source_data
on_source_data-Grown [] now h = ground arith
on_source_data-Grown (b ∷ rest) now h =
    let h₁ : Hub = record h { rx_bytes = h.rx_bytes + length (b ∷ rest); rovers = [] } in
    let g = offer_all-Grown (b ∷ rest) now h.rovers h₁ in
    record { counted = g.counted; refused = g.refused; received = omega (arith, g.received) }

crc_errors-Grown : (n : ℕ) (h : Hub) → Grown 0 n 0 h (record_rtcm_crc_errors n h)
unfolding record_rtcm_crc_errors
crc_errors-Grown n h = ground arith

-- The frames' bytes, one after the other.
abbrev pub raws : List RtcmFrame → List ℕ
raws [] = []
raws (fr ∷ frs) = fr.raw ++ raws frs

-- What bytes that are sent at `now` do to the rovers: each of them is offered the bytes, none of
-- them if there are no bytes.
abbrev pub passed : ℕ → List ℕ → List Session → List Session
passed now [] ss = ss
passed now (b ∷ out) ss = map (λ s. (offer (b ∷ out) now s).0) ss

record_info-rovers : (o : Option Info) (h : Hub) → (record_info o h).rovers ≡ h.rovers
unfolding record_info record_station_info
record_info-rovers none h = refl
record_info-rovers (some info) h = refl

handle_frame-rovers :
    (now : ℕ) (fr : RtcmFrame) (h : Hub) → (handle_frame now fr h).rovers ≡ h.rovers
unfolding handle_frame record_rtcm_frame publish_rtcm_frame
handle_frame-rovers now fr h =
    let h₁ = record_rtcm_frame now fr.msg_type h in
    ground (arith, record_info-rovers (info_of fr) h₁)

handle_frames-passes :
    (now : ℕ) (frs : List RtcmFrame) (h : Hub)
    → ((handle_frames now frs h).0.rovers ≡ h.rovers) × ((handle_frames now frs h).1 ≡ raws frs)
unfolding handle_frames
handle_frames-passes now [] h = (refl, refl)
handle_frames-passes now (fr ∷ frs) h =
    let (same, out) = handle_frames-passes now frs (handle_frame now fr h) in
    (same ∙ handle_frame-rovers now fr h, ap (◌++◌ fr.raw) out)

on_source_data-passed :
    (out : List ℕ) (now : ℕ) (h : Hub) → (on_source_data out now h).rovers ≡ passed now out h.rovers
on_source_data-passed [] now h = unfold on_source_data in refl
on_source_data-passed (b ∷ rest) now h = (on_source_data-Offered b rest now h).0

crc_errors-rovers : (n : ℕ) (h : Hub) → (record_rtcm_crc_errors n h).rovers ≡ h.rovers
unfolding record_rtcm_crc_errors
crc_errors-rovers n h = ground arith

-- The rovers are offered the bytes of the frames that were found, and nothing else.
pub handle_fed-passed :
    (now : ℕ) (r : Fed) (h : Hub)
    → (handle_fed now r h).hub.rovers ≡ passed now (raws r.frames) h.rovers
unfolding handle_fed
handle_fed-passed now r h =
    let h₁ = record_rtcm_crc_errors r.crc_errors h in
    let (same, out) = handle_frames-passes now r.frames h₁ in
    on_source_data-passed (handle_frames now r.frames h₁).1 now (handle_frames now r.frames h₁).0
    ∙ ap (λ o. passed now o (handle_frames now r.frames h₁).0.rovers) out
    ∙ ap (passed now (raws r.frames)) (same ∙ crc_errors-rovers r.crc_errors h)

pub handle_fed-Grown :
    (now : ℕ) (r : Fed) (h : Hub)
    → Grown (length r.frames) r.crc_errors (size_of r.frames) h (handle_fed now r h).hub
      × ((handle_fed now r h).buf ≡ r.buf)
unfolding handle_fed
handle_fed-Grown now r h =
    let h₁ = record_rtcm_crc_errors r.crc_errors h in
    let (h₂, out) = handle_frames now r.frames h₁ in
    let g₁ = crc_errors-Grown r.crc_errors h in
    let (g₂, size) = handle_frames-Grown now r.frames h₁ in
    let g₃ = on_source_data-Grown out now h₂ in
    (
      record {
        counted = omega (arith, g₁.counted, g₂.counted, g₃.counted);
        refused = omega (arith, g₁.refused, g₂.refused, g₃.refused);
        received = omega (arith, g₁.received, g₂.received, g₃.received, size);
      },
      refl,
    )
