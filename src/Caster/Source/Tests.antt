-- ===== src/Caster/Source/Tests.antt =====
-- The theorems on sources at concrete inputs, and runs of the model.
use babilcors.Prelude.{ℕ, length, ◌+◌, ◌≤◌, ◌≡◌, refl, false, some, String, List, [], ◌∷◌, arith}
use babilcors.Prelude.Int.{pos}
use babilcors.Rtcm.Stream.{rtcm_message_type}
use babilcors.Rtcm.Stream.Encode.{Packet, IsPacket, encode}
use babilcors.Caster.Hub.{Hub, new_hub}
use babilcors.Caster.Server.{Server, new_session, default_tier}
use babilcors.Caster.Source.{Config, Offer, active, Feeding, receive_all}
use babilcors.Caster.Source.Limit.{Event, offers, ends, run, run-active}
use babilcors.Caster.Source.Wire.{receive_all-wire, framed, times, all_bytes, passed_all}

abbrev config : Config
config = record {
  password = "secret";
  mountpoints = [];
  requires_cert = false;
  max_sources_total = pos 1;
}

abbrev server : Server
server = record {
  mountpoints = [];
  disabled_mountpoints = [];
  id_seq = 0;
  rover_total = 0;
  rover_ip_counts = [];
  auth_unauth_total = 0;
  auth_unauth_per_mp = [];
  source_unauth_total = 0;
}

abbrev offer_of : String → Offer
offer_of m = record { password = "secret"; mountpoint = m; addr = "10.0.0.1:5"; has_cert = false }

abbrev events : List Event
events = offers (offer_of "A") ∷ offers (offer_of "B") ∷ ends "A" ∷ offers (offer_of "B") ∷ []

server-active : active server.mountpoints ≤ 1
unfolding active
server-active = omega arith

run-active_example : active (run config events server).mountpoints ≤ 1
run-active_example = run-active config events server (λ on. server-active) (omega arith)

abbrev ping : Packet
ping = record { noise = 0 ∷ []; payload = 0x3e ∷ 0xd0 ∷ 0x01 ∷ []; msg_type = 1005 }

ping-IsPacket : IsPacket ping
unfolding rtcm_message_type
ping-IsPacket = ((omega arith, tt), omega arith, refl)

abbrev two_rovers : Hub
two_rovers = record new_hub {
  rovers = new_session 1 default_tier 0 ∷ new_session 2 default_tier 0 ∷ [];
}

-- The bytes of a packet, the noise before it in a chunk of its own.
receive_all-wire_example :
    (f : Feeding) × (receive_all
        ((5, 0 ∷ []) ∷ (6, encode ping.payload) ∷ (7, []) ∷ [])
        (record { buf = []; hub = two_rovers })
      ≡ some f)
    × (f.hub.rtcm_frames_total ≡ two_rovers.rtcm_frames_total + 1)
    × (f.hub.rtcm_crc_errors_total ≡ two_rovers.rtcm_crc_errors_total)
    × (f.hub.rx_bytes ≡ two_rovers.rx_bytes + length (framed (ping ∷ [])))
    × ((outs : List (ℕ × List ℕ)) × (times outs ≡ 5 ∷ 6 ∷ [])
        × (all_bytes outs ≡ framed (ping ∷ []))
        × (f.hub.rovers ≡ passed_all outs two_rovers.rovers))
unfolding encode
receive_all-wire_example =
    receive_all-wire (ping ∷ []) [] 5 0 [] ((6, encode ping.payload) ∷ (7, []) ∷ []) two_rovers
      (ping-IsPacket, tt) tt refl
