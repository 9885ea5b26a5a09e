-- ===== src/Caster/Events.antt =====
-- The events of src/caster.py that the admin API shows: `_event_add` with its throttle, and
-- `get_events`. Times are ticks of the monotonic clock; the key is the string that `_event_add`
-- makes of code, mountpoint, connection and user. The start of the audit worker is not modelled.
pub mod Throttle
mod Tests
use babilcors.Prelude.{
  ℕ, suc, ◌+◌, ◌-◌, min, max, ◌≡◌, Bool, true, false, Option, none, some, String, List, [], ◌∷◌,
  ◌++◌, ◌==◌, ltb, length, drop, if◌then◌else◌,
}
use babilcors.Prelude.Dict.{string_eq, Dict, lookup, insert}
use babilcors.Caster.Audit.{append_bounded}

pub record Event : Type 0 where
  pub key : String
  pub ts : ℕ
  pub severity : String
  pub message : String

pub record Events : Type 0 where
  pub events : List Event
  pub throttle : Dict String ℕ

-- `deque(maxlen=5000)`.
abbrev pub max_events : ℕ
max_events = 5000

unfoldable pub is_throttled : Option ℕ → ℕ → ℕ → Bool
is_throttled none now throttle = false
is_throttled (some last) now throttle = ltb (now - last) throttle

unfoldable pub event_add : ℕ → Event → Events → Events
event_add throttle e s =
    if is_throttled (lookup e.key s.throttle) e.ts throttle then s else record {
      events = append_bounded max_events e s.events;
      throttle = insert e.key e.ts s.throttle;
    }

-- `list(self._events)[-lim:]`, newest last; a limit of 0 stands for 200.
unfoldable pub get_events : ℕ → Events → List Event
get_events limit s =
    let lim = max 1 (min (if limit == 0 then 200 else limit) 2000) in
    drop (length s.events - lim) s.events
