-- ===== src/Caster/Send.antt =====
-- `_rover_send_loop` of src/caster.py: the chunks of a rover's queue go to its socket, each
-- after the tokens for it have been taken. The clock moves only as a wait says and by delays
-- that the caller of these functions gives. A list of delays is also the bound on the number of
-- rounds.
pub mod Wait
pub mod Order
mod Tests
use babilcors.Prelude.{
  ℕ, ◌+◌, ◌-◌, max, ◌≡◌, Bool, true, false, Option, none, some, List, [], ◌∷◌, ◌++◌, length,
  if◌then◌else◌,
}
use babilcors.Tiers.{TokenBucket, ticks_per_second, consume, time_to_available}
use babilcors.Caster.ByteQueue.{ByteQueue, Got, blocked, ended, item, get}
use babilcors.Caster.Hub.{Session, Hub, record_sent_bytes}

-- `0.001` of a second.
abbrev pub shortest_wait : ℕ
shortest_wait = 1_000_000

-- Of one round: the time between its two readings of the clock; by how much its sleep is too
-- short, as floats are rounded and the clock is coarse; and by how much `asyncio.sleep` oversleeps.
pub record Delay : Type 0 where
  pub pause : ℕ
  pub early : ℕ
  pub extra : ℕ

-- `while not session.bucket.consume(len(chunk))`: the time and the bucket after the loop, or
-- `none` if the delays are used up before it ends.
unfoldable pub await_tokens : List Delay → ℕ → ℕ → TokenBucket → Option (ℕ × TokenBucket)
await_tokens [] now n b = none
await_tokens (d ∷ delays) now n b =
    let (b₁, ok) = consume now n b in
    let (b₂, wait) = time_to_available (now + d.pause) n b₁ in
    let slept = max wait shortest_wait - d.early + d.extra in
    let later = await_tokens delays (now + d.pause + slept) n b₂ in
    if ok then some (now, b₁) else later

-- A session without a bucket does not wait.
unfoldable pub take_turn : List Delay → ℕ → ℕ → Option TokenBucket → Option (ℕ × Option TokenBucket)
take_turn delays now n none = some (now, none)
take_turn delays now n (some b) = elim (await_tokens delays now n b) [
  | none ↦ none
  | some (later, b') ↦ some (later, some b')
]

-- One round of the outer loop. `waits` is a `get` that waits; `ends` the return on `None`;
-- `throttled` a wait for tokens that the delays do not cover; `breaks` a write that raised.
pub data Sent : Type 0 where
  waits : Sent
  ends : Sent
  throttled : Session → Sent
  breaks : ℕ → Session → Sent
  sends : ℕ → Session → Hub → Sent

unfoldable pub write_chunk : Bool → List ℕ → ℕ → Session → Hub → Sent
write_chunk writable chunk now s h =
    if writable
    then sends now
        (record s { sent_bytes = s.sent_bytes + length chunk; written = s.written ++ chunk ∷ [] })
        (record_sent_bytes (length chunk) h)
    else breaks now (record s { is_closing = true })

unfoldable pub send_chunk : Bool → List ℕ → Option (ℕ × Option TokenBucket) → Session → Hub → Sent
send_chunk writable chunk none s h = throttled s
send_chunk writable chunk (some (now, bucket)) s h =
    write_chunk writable chunk now (record s { bucket = bucket }) h

unfoldable pub send_got : Bool → List Delay → ℕ → Session → Hub → Got → Sent
send_got writable delays now s h blocked = waits
send_got writable delays now s h ended = ends
send_got writable delays now s h (item chunk q) =
    send_chunk writable chunk (take_turn delays now (length chunk) s.bucket)
      (record s { queue = q }) h

unfoldable pub send_next : Bool → List Delay → ℕ → Session → Hub → Sent
send_next writable delays now s h = send_got writable delays now s h (get s.queue)
