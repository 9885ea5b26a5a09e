-- ===== src/Caster/Hub.antt =====
-- `RoverSession` and `MountpointHub` of src/caster.py. The set of rovers is a list, in the order
-- in which a loop over it goes. A session's `id` is its identity. No operation waits while it
-- holds the hub's lock, so each is one step. `written` is what a rover's socket has been given.
pub mod Counts
pub mod Fanout
pub mod Totals
pub mod Source
mod Tests
use babilcors.Prelude.{
  ℕ, suc, ◌+◌, ◌≡◌, Bool, true, false, not, ◌&&◌, ◌||◌, Option, none, some, String, List, [], ◌∷◌,
  ◌++◌, ◌==◌, ltb, leb, length, if◌then◌else◌, keep_if, map, or_else,
}
use babilcors.Prelude.Int.{ℤ, pos, pos_part}
use babilcors.Prelude.Dict.{Eq, nat_eq, string_eq, Dict, lookup, insert}
use babilcors.Tiers.{Tier, TokenBucket, epoch_gate_ok}
use babilcors.Caster.ByteQueue.{ByteQueue, Put, full, stored, close, put_nowait}
use babilcors.Rtcm.Messages.{Value, Info, text, number, scaled, null}

pub record Session : Type 0 where
  pub id : ℕ
  pub tier : Tier
  pub queue : ByteQueue
  pub bucket : Option TokenBucket
  pub ep_last_ts : Option ℕ
  pub dropped_bytes : ℕ
  pub sent_bytes : ℕ
  pub is_closing : Bool
  pub written : List (List ℕ)

-- What is put in the queue of an IoT relay: frame, type, station and CRC errors so far.
pub record Envelope : Type 0 where
  pub rtcm : List ℕ
  pub msg_type : ℕ
  pub station_id : ℕ
  pub crc_errors : ℕ

-- The relay's `asyncio.Queue`, which has a bound.
pub record Relay : Type 0 where
  pub maxsize : ℕ
  pub queue : List Envelope

pub record Hub : Type 0 where
  pub source_addr : Option String
  pub rovers : List Session
  pub rx_bytes : ℕ
  pub tx_bytes_total : ℕ
  pub dropped_bytes_total : ℕ
  pub rtcm_frames_total : ℕ
  pub rtcm_crc_errors_total : ℕ
  pub rtcm_msg_counts : Dict ℕ ℕ
  pub station_info : Info
  pub last_rtcmtime : Option ℕ
  pub relay : Option Relay

unfoldable pub new_hub : Hub
new_hub = record {
  source_addr = none;
  rovers = [];
  rx_bytes = 0;
  tx_bytes_total = 0;
  dropped_bytes_total = 0;
  rtcm_frames_total = 0;
  rtcm_crc_errors_total = 0;
  rtcm_msg_counts = [];
  station_info = [];
  last_rtcmtime = none;
  relay = none;
}

unfoldable pub record_sent_bytes : ℕ → Hub → Hub
record_sent_bytes n h = if ltb 0 n then record h { tx_bytes_total = h.tx_bytes_total + n } else h

unfoldable pub record_dropped_bytes : ℕ → Hub → Hub
record_dropped_bytes n h =
    if ltb 0 n then record h { dropped_bytes_total = h.dropped_bytes_total + n } else h

unfoldable pub record_rtcm_crc_errors : ℕ → Hub → Hub
record_rtcm_crc_errors n h =
    if ltb 0 n then record h { rtcm_crc_errors_total = h.rtcm_crc_errors_total + n } else h

abbrev pub rtcm_max_types : ℕ
rtcm_max_types = 64

-- `_rtcm_msg_counts` after a frame of this type: key 0 counts the types that came too late.
unfoldable pub count_type : ℕ → Dict ℕ ℕ → Dict ℕ ℕ
count_type msg_type counts = elim (lookup msg_type counts) [
  | some n ↦ insert msg_type (n + 1) counts
  | none ↦
      if leb rtcm_max_types (length counts)
      then insert 0 (or_else (lookup 0 counts) 0 + 1) counts
      else insert msg_type 1 counts
]

unfoldable pub record_rtcm_frame : ℕ → ℕ → Hub → Hub
record_rtcm_frame now msg_type h = record h {
  rtcm_frames_total = h.rtcm_frames_total + 1;
  last_rtcmtime = some now;
  rtcm_msg_counts = count_type msg_type h.rtcm_msg_counts;
}

-- `int(self._station_info.get("station_id") or 0)`; only a number is ever stored there.
unfoldable pub station_id_of : Info → ℕ
station_id_of info = elim (lookup "station_id" info) [ some (number n) ↦ n | _ ↦ 0 ]

-- A full queue raises `QueueFull`, which is caught: the frame is left out.
unfoldable pub publish_rtcm_frame : List ℕ → ℕ → Hub → Hub
publish_rtcm_frame frame msg_type h = elim h.relay [
  | none ↦ h
  | some r ↦
      let e : Envelope = record {
        rtcm = frame;
        msg_type = msg_type;
        station_id = station_id_of h.station_info;
        crc_errors = h.rtcm_crc_errors_total;
      } in
      if ltb 0 r.maxsize && leb r.maxsize (length r.queue)
      then h
      else record h { relay = some (record r { queue = r.queue ++ e ∷ [] }) }
]

-- Python's truth of a value: a text that is not empty, a number that is not 0.
unfoldable pub is_true : Value → Bool
is_true (text []) = false
is_true (text (c ∷ rest)) = true
is_true (number n) = ltb 0 n
is_true (scaled (pos n)) = ltb 0 n
is_true (scaled (ℤ.negsuc n)) = true
is_true null = false

-- `station_info.update({k: v for (k, v) in info.items() if v})`.
unfoldable pub update_info : Info → Info → Info
update_info [] si = si
update_info ((k, v) ∷ rest) si = update_info rest (if is_true v then insert k v si else si)

unfoldable pub record_station_info : Info → Hub → Hub
record_station_info info h = record h { station_info = update_info info h.station_info }

unfoldable pub rover_count : Hub → ℕ
rover_count h = length h.rovers

unfoldable pub attach_source : String → Hub → Hub × Bool
attach_source addr h = elim h.source_addr [
  | none ↦ (record h { source_addr = some addr }, true)
  | some a ↦
      if not (string_eq.beq a addr)
      then (h, false)
      else (record h { source_addr = some addr }, true)
]

-- The queue is closed before the socket.
unfoldable pub hang_up : Session → Session
hang_up s = record s { queue = close s.queue; is_closing = true }

unfoldable pub detach_source : Hub → Hub
detach_source h = record h { source_addr = none; rovers = map hang_up h.rovers }

unfoldable pub has_rover : ℕ → List Session → Bool
has_rover i [] = false
has_rover i (s ∷ ss) = (s.id == i) || has_rover i ss

unfoldable pub add_rover : Session → Hub → Hub
add_rover s h = if has_rover s.id h.rovers then h else record h { rovers = h.rovers ++ s ∷ [] }

unfoldable pub remove_rover : ℕ → Hub → Hub
remove_rover i h = record h { rovers = keep_if (λ s. not (s.id == i)) h.rovers }

-- `put_nowait` and the handler of `ByteQueueFull`: the session and the bytes dropped.
unfoldable pub put_chunk : List ℕ → Session → Session × ℕ
put_chunk chunk s = elim (put_nowait chunk s.queue) [
  | full ↦ (record s { dropped_bytes = s.dropped_bytes + length chunk }, length chunk)
  | stored q ↦ (record s { queue = q }, 0)
]

-- The body of the loop over the rovers.
unfoldable pub offer : List ℕ → ℕ → Session → Session × ℕ
offer chunk now s =
    if epoch_gate_ok s.ep_last_ts s.tier.max_epochs_per_minute now
    then put_chunk chunk (record s {
      ep_last_ts = if ltb 0 (pos_part s.tier.max_epochs_per_minute) then some now else s.ep_last_ts;
    })
    else (s, 0)

-- The loop over the rovers; the hub's total counts along.
unfoldable pub offer_all : List ℕ → ℕ → List Session → Hub → Hub
offer_all chunk now [] h = h
offer_all chunk now (s ∷ ss) h =
    let (s', dropped) = offer chunk now s in
    offer_all chunk now ss
      (record_dropped_bytes dropped (record h { rovers = h.rovers ++ s' ∷ [] }))

unfoldable pub on_source_data : List ℕ → ℕ → Hub → Hub
on_source_data [] now h = h
on_source_data (b ∷ rest) now h =
    let chunk = b ∷ rest in
    offer_all chunk now h.rovers (record h { rx_bytes = h.rx_bytes + length chunk; rovers = [] })
