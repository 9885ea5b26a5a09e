-- ===== src/Tiers.antt =====
-- src/tiers.py: tiers, the token bucket and the epoch gate.
-- The clock of `time.monotonic` is a number of ticks, a thousand million to the second. Tokens
-- are fractions in the source: here they are counted in parts, `unit` of them to a token, and
-- `rate` parts come in at each tick, so that tokens are exact. By how much a wait comes out too
-- short, as the floats of the source are rounded, is an input of the loop that waits (Send).
pub mod Bucket
pub mod Waiting
pub mod Epochs
mod Tests
use babilcors.Prelude.{
  ℕ, ◌+◌, ◌-◌, ◌*◌, ◌/◌, ◌^◌, min, max, Bool, true, false, ◌||◌, Option, none, some, List, [], ◌∷◌,
  ◌==◌, leb, if◌then◌else◌,
}
use babilcors.Prelude.Int.{ℤ, pos_part}

abbrev pub ticks_per_second : ℕ
ticks_per_second = 1_000_000_000

-- Python integers: `validate_config` of src/caster.py refuses negative ones.
pub record Tier : Type 0 where
  pub rate_limit_bps : ℤ
  pub max_epochs_per_minute : ℤ
  pub max_queue_bytes : ℤ

pub record TokenBucket : Type 0 where
  pub rate : ℕ
  pub unit : ℕ
  pub capacity : ℕ
  pub tokens : ℕ
  pub t : ℕ

-- A bucket is made full. The rate is in tokens for each `1 / per` of a second.
unfoldable pub new_bucket : ℕ → ℕ → ℕ → ℕ → TokenBucket
new_bucket rate per capacity now =
    let unit = per * ticks_per_second in
    record { rate = rate; unit = unit; capacity = capacity; tokens = capacity * unit; t = now }

-- The four lines that `consume` and `time_to_available` begin with.
unfoldable pub refill : ℕ → TokenBucket → TokenBucket
refill now b = record b {
  t = now;
  tokens = min (b.capacity * b.unit) (b.tokens + (now - b.t) * b.rate);
}

unfoldable pub take_tokens : ℕ → TokenBucket → TokenBucket × Bool
take_tokens n b =
    if leb (n * b.unit) b.tokens
    then (record b { tokens = b.tokens - n * b.unit }, true)
    else (b, false)

unfoldable pub consume : ℕ → ℕ → TokenBucket → TokenBucket × Bool
consume now n b =
    if (b.rate == 0) || (b.capacity == 0) then (b, true) else take_tokens n (refill now b)

-- The parts that are missing, over the rate, in whole ticks: what is left of a tick is cut off.
unfoldable pub ticks_until : ℕ → TokenBucket → ℕ
ticks_until n b = if leb (n * b.unit) b.tokens then 0 else (n * b.unit - b.tokens) / b.rate

unfoldable pub time_to_available : ℕ → ℕ → TokenBucket → TokenBucket × ℕ
time_to_available now n b =
    if (b.rate == 0) || (b.capacity == 0)
    then (b, 0)
    else (refill now b, ticks_until n (refill now b))

-- `(now - last_ts) >= 60.0 / epm`, with the division multiplied out.
unfoldable pub epoch_gate_ok : Option ℕ → ℤ → ℕ → Bool
epoch_gate_ok last_ts epm now = if pos_part epm == 0 then true else elim last_ts [
  | none ↦ true
  | some last ↦ leb (60 * ticks_per_second) ((now - last) * pos_part epm)
]
