-- ===== src/Iot.antt =====
-- `IoTRelay` of src/iot.py, as far as its WebSocket subscribers go: each has a queue with a bound,
-- and an envelope that finds it full takes the place of the oldest. MQTT and protobuf are
-- third-party: an envelope is any value. No `put_nowait` fails here, since there is room.
pub mod Newest
mod Tests
use babilcors.Prelude.{
  ℕ, suc, ◌+◌, ◌-◌, ◌≡◌, Bool, true, false, not, ◌&&◌, List, [], ◌∷◌, ◌++◌, ◌==◌, ltb, leb, length,
  drop, map, if◌then◌else◌,
}

pub record Subscriber (E : Type 0) : Type 0 where
  pub id : ℕ
  pub maxsize : ℕ
  pub queue : List E

module _ {E : Type 0} where
  -- `asyncio.Queue.full`: a queue with maxsize 0 has no bound.
  unfoldable pub is_full : Subscriber E → Bool
  is_full q = ltb 0 q.maxsize && leb q.maxsize (length q.queue)

  -- The body of the loop over the subscribers.
  unfoldable pub deliver : E → Subscriber E → Subscriber E
  deliver envelope q =
      let left = if is_full q then drop 1 q.queue else q.queue in
      record q { queue = left ++ envelope ∷ [] }

  unfoldable pub fan_out : E → List (Subscriber E) → List (Subscriber E)
  fan_out envelope subscribers = map (deliver envelope) subscribers

  unfoldable pub add_websocket_queue : Subscriber E → List (Subscriber E) → List (Subscriber E)
  add_websocket_queue q subscribers = subscribers ++ q ∷ []

  -- `list.remove`: the first one.
  unfoldable pub remove_websocket_queue : ℕ → List (Subscriber E) → List (Subscriber E)
  remove_websocket_queue i [] = []
  remove_websocket_queue i (q ∷ qs) =
      let rest = remove_websocket_queue i qs in if q.id == i then qs else q ∷ rest
