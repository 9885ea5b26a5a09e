-- ===== src/Caster/ByteQueue.antt =====
-- `ByteQueue` of src/caster.py: the bounded queue of chunks between a hub and a rover. A chunk
-- is a list of bytes. The condition variable only wakes a waiting `get`: here a `get` that would
-- wait is the outcome `blocked`, and is made again after another call.
pub mod Fifo
mod Tests
use babilcors.Prelude.{
  ℕ, ◌+◌, ◌-◌, Bool, true, false, List, [], ◌∷◌, ◌++◌, ◌==◌, ltb, length, if◌then◌else◌,
}
use babilcors.Prelude.Int.{ℤ, pos_part}

pub record ByteQueue : Type 0 where
  pub max : ℕ
  pub buf : List (List ℕ)
  pub bytes : ℕ
  pub closed : Bool

-- `max(0, int(max_bytes))`.
unfoldable pub new_queue : ℤ → ByteQueue
new_queue max_bytes = record { max = pos_part max_bytes; buf = []; bytes = 0; closed = false }

unfoldable pub close : ByteQueue → ByteQueue
close q = record q { closed = true }

-- `full` is the exception `ByteQueueFull`, with the queue as it was.
pub data Put : Type 0 where
  full : Put
  stored : ByteQueue → Put

unfoldable pub put_nowait : List ℕ → ByteQueue → Put
put_nowait b q =
    if q.closed
    then full
    else if q.max == 0
    then stored q
    else if ltb q.max (length b)
    then full
    else if ltb q.max (q.bytes + length b)
    then full
    else stored (record q { buf = q.buf ++ b ∷ []; bytes = q.bytes + length b })

pub data Got : Type 0 where
  blocked : Got
  ended : Got
  item : List ℕ → ByteQueue → Got

unfoldable pub pop_front : List (List ℕ) → ByteQueue → Got
pop_front [] q = if q.closed then ended else blocked
pop_front (b ∷ rest) q = item b (record q { buf = rest; bytes = q.bytes - length b })

unfoldable pub get : ByteQueue → Got
get q = pop_front q.buf q
