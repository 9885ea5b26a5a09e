-- ===== src/Caster/Hub/Tests.antt =====
-- The theorems on hubs at concrete inputs, and runs of the model.
use babilcors.Prelude.{
  ℕ, ◌+◌, ◌≡◌, ◌≢◌, refl, inl, inr, ◌⊎◌, true, false, none, some, String, List, [], ◌∷◌, map, sum,
  arith,
}
use babilcors.Prelude.Int.{pos}
use babilcors.Prelude.Dict.{nat_eq, string_eq, sum_values, lookup}
use babilcors.Tiers.{epoch_gate_ok}
use babilcors.Caster.ByteQueue.Fifo.{IsSound}
use babilcors.Caster.ByteQueue.{put_nowait}
use babilcors.Caster.Hub.{
  Session, Hub, new_hub, offer, put_chunk, on_source_data, offer_all, record_dropped_bytes,
  attach_source, add_rover, has_rover, remove_rover,
}
use babilcors.Caster.Hub.Counts.{record_all, Fits, Tally, record_all-sum, record_all-Tally}
use babilcors.Caster.Hub.Fanout.{Outcome, on_source_data-Offered, offer-Outcome}
use babilcors.Caster.Hub.Totals.{
  Event, attaches, joins, leaves, receives, apply, run, IsConsistent, run-IsConsistent,
}
use babilcors.Caster.Hub.Source.{attach_source-exclusive, run-source}

-- A rover whose queue holds three bytes.
abbrev rover : ℕ → Session
rover id = record {
  id = id;
  tier = record { rate_limit_bps = pos 0; max_epochs_per_minute = pos 0; max_queue_bytes = pos 3 };
  queue = record { max = 3; buf = []; bytes = 0; closed = false };
  bucket = none;
  ep_last_ts = none;
  dropped_bytes = 0;
  sent_bytes = 0;
  is_closing = false;
  written = [];
}

abbrev frames : List (ℕ × ℕ)
frames = (5, 1005) ∷ (6, 1077) ∷ (7, 1005) ∷ []

abbrev name_a : String
name_a = "a"

abbrev name_b : String
name_b = "b"

new_hub-sum : sum_values new_hub.rtcm_msg_counts ≡ new_hub.rtcm_frames_total
unfolding new_hub
new_hub-sum = refl

new_hub-Fits : Fits new_hub.rtcm_msg_counts
unfolding new_hub
new_hub-Fits = inl (omega arith)

new_hub-Tally : (t : ℕ) → Tally t 0 new_hub.rtcm_msg_counts
unfolding new_hub lookup
new_hub-Tally t = inr (refl, inl refl)

record_all-sum_case :
    (sum_values (record_all frames new_hub).rtcm_msg_counts
      ≡ (record_all frames new_hub).rtcm_frames_total)
    × Fits (record_all frames new_hub).rtcm_msg_counts
record_all-sum_case = record_all-sum frames new_hub new_hub-sum new_hub-Fits

record_all-Tally_example : Tally 1005 2 (record_all frames new_hub).rtcm_msg_counts
record_all-Tally_example = record_all-Tally frames 1005 0 new_hub (omega arith) (new_hub-Tally 1005)

-- Two bytes fit.
offer-Outcome_case :
    Outcome
      (1 ∷ 2 ∷ [])
      9
      (rover 1)
      (offer (1 ∷ 2 ∷ []) 9 (rover 1)).0
      (offer (1 ∷ 2 ∷ []) 9 (rover 1)).1
offer-Outcome_case = offer-Outcome (1 ∷ 2 ∷ []) 9 (rover 1) (omega arith)

abbrev events : List Event
events =
    attaches "a"
    ∷ joins (rover 1)
    ∷ joins (rover 2)
    ∷ receives (1 ∷ 2 ∷ []) 9
    ∷ receives (3 ∷ 4 ∷ []) 10
    ∷ leaves 1
    ∷ attaches "b"
    ∷ []

rover-IsFresh : (id : ℕ) → ((rover id).dropped_bytes ≡ 0) × IsSound (rover id).queue
rover-IsFresh id = (refl, record { counted = refl; bounded = omega arith })

new_hub-IsConsistent : IsConsistent 0 new_hub
unfolding new_hub
new_hub-IsConsistent = record { accounted = refl; sound = tt; distinct = tt }

run-IsConsistent_example : IsConsistent (run events 0 new_hub).0 (run events 0 new_hub).1
run-IsConsistent_example =
    run-IsConsistent events 0 new_hub
      (tt, (rover-IsFresh 1, (rover-IsFresh 2, (tt, (tt, (tt, (tt, tt))))))) new_hub-IsConsistent

-- Both rovers dropped the second chunk, and one of them has left.
run_drops :
    ((run events 0 new_hub).0 ≡ 2)
    × ((run events 0 new_hub).1.dropped_bytes_total ≡ 4)
    × ((run events 0 new_hub).1.source_addr ≡ some "a")
unfolding run apply new_hub attach_source add_rover has_rover on_source_data offer_all offer
    put_chunk put_nowait remove_rover record_dropped_bytes epoch_gate_ok
run_drops = (refl, refl, refl)

abbrev fed_hub : Hub
fed_hub = record new_hub { source_addr = some "a"; rovers = rover 1 ∷ [] }

names : name_a ≢ name_b
names p = ground (arith, (string_eq.beq_iff name_a name_b).1 p)

run-source_case :
    ((run (joins (rover 2) ∷ attaches "b" ∷ []) 0 fed_hub).1.source_addr ≡ some "a")
    × ((attach_source "b" (run (joins (rover 2) ∷ attaches "b" ∷ []) 0 fed_hub).1).1 ≡ false)
run-source_case =
    run-source (joins (rover 2) ∷ attaches "b" ∷ []) 0 "a" "b" fed_hub (tt, (tt, tt)) refl names

attach_source-exclusive_case :
    (((attach_source "b" fed_hub).1 ≡ true)
      × ((attach_source "b" fed_hub).0.source_addr ≡ some "b")
      × ((fed_hub.source_addr ≡ none) ⊎ (fed_hub.source_addr ≡ some "b")))
    ⊎ (((attach_source "b" fed_hub).1 ≡ false)
        × ((attach_source "b" fed_hub).0 ≡ fed_hub)
        × ((a : String) × (fed_hub.source_addr ≡ some a) × (a ≢ name_b)))
attach_source-exclusive_case = attach_source-exclusive "b" fed_hub

on_source_data-Offered_case :
    ((on_source_data (1 ∷ 2 ∷ []) 9 fed_hub).rovers
      ≡ map (λ s. (offer (1 ∷ 2 ∷ []) 9 s).0) fed_hub.rovers)
    × ((on_source_data (1 ∷ 2 ∷ []) 9 fed_hub).dropped_bytes_total
        ≡ fed_hub.dropped_bytes_total + sum (map (λ s. (offer (1 ∷ 2 ∷ []) 9 s).1) fed_hub.rovers))
    × ((on_source_data (1 ∷ 2 ∷ []) 9 fed_hub).rx_bytes ≡ fed_hub.rx_bytes + 2)
    × ((on_source_data (1 ∷ 2 ∷ []) 9 fed_hub).source_addr ≡ some "a")
on_source_data-Offered_case = on_source_data-Offered 1 (2 ∷ []) 9 fed_hub
