-- ===== src/Caster/Events/Tests.antt =====
-- The theorems on events at concrete inputs.
use babilcors.Prelude.{ℕ, ◌+◌, ◌-◌, ◌*◌, ◌≤◌, ◌≡◌, refl, none, [], ◌∷◌, length, arith}
use babilcors.Prelude.Dict.{string_eq, lookup}
use babilcors.Caster.Events.{Event, Events, max_events, get_events}
use babilcors.Caster.Events.Throttle.{run, run-le, recorded, recorded_bound}

abbrev start : Events
start = record { events = []; throttle = [] }

abbrev jammed : ℕ → Event
jammed ts = record { key = "JAMMING:RTCM3:1:rover"; ts = ts; severity = "warning"; message = "" }

run-le_case :
    (length (run ((30, jammed 1) ∷ (30, jammed 2) ∷ []) start).events ≤ max_events)
    × (length (get_events 0 (run ((30, jammed 1) ∷ (30, jammed 2) ∷ []) start)) ≤ 2000)
run-le_case = run-le ((30, jammed 1) ∷ (30, jammed 2) ∷ []) start 0 (omega arith)

start-new : lookup "JAMMING:RTCM3:1:rover" start.throttle ≡ none
unfolding lookup
start-new = refl

-- The second of these comes too early.
recorded_bound_case :
    recorded "JAMMING:RTCM3:1:rover" 30 (jammed 5 ∷ jammed 20 ∷ jammed 36 ∷ []) start * 30
    ≤ 30 + (36 - 5)
recorded_bound_case =
    recorded_bound "JAMMING:RTCM3:1:rover" 30 5 (jammed 5 ∷ jammed 20 ∷ jammed 36 ∷ []) start
      start-new (omega arith, (omega arith, (omega arith, tt)))
