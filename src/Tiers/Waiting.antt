-- ===== src/Tiers/Waiting.antt =====
-- How long to wait for tokens, and when waiting is in vain.
use babilcors.Prelude.{
  ℕ, ◌+◌, ◌-◌, ◌*◌, ◌/◌, ◌≤◌, ◌<◌, ◌≡◌, inl, inr, true, false, arith, leb, Bool-cases,
}
use native.Mathlib.Nat.{mod-add-div, mod-lt}
use babilcors.Tiers.{TokenBucket, refill, take_tokens, consume, ticks_until, time_to_available}
use babilcors.Tiers.Bucket.{IsBounded}

-- A quotient and one more cover what was divided.
quotient_covers : (m r : ℕ) → 0 < r → m ≤ (m / r + 1) * r
quotient_covers m r h = grind (arith, mod-add-div m r, mod-lt m h)

-- What comes in over so many ticks is enough for the tokens.
abbrev pub IsShort : ℕ → ℕ → TokenBucket → Type 0
IsShort n ticks b = n * b.unit ≤ b.tokens + ticks * b.rate

pub IsShort-le : (n j k : ℕ) (b : TokenBucket) → j ≤ k → IsShort n j b → IsShort n k b
IsShort-le n j k b h short =
    let more : j * b.rate ≤ k * b.rate = grind arith in omega (arith, more, short)

pub ticks_until-IsShort : (n : ℕ) (b : TokenBucket) → 0 < b.rate → IsShort n (ticks_until n b + 1) b
unfolding ticks_until
ticks_until-IsShort n b pos = elim (Bool-cases (leb (n * b.unit) b.tokens)) [
  | inl there ↦ rw there (ground (arith, there))
  | inr short ↦ rw short (omega (arith, quotient_covers (n * b.unit - b.tokens) b.rate pos))
]

-- A refill after some of the ticks.
pub refill-IsShort :
    (n now j k : ℕ) (b : TokenBucket)
    → n ≤ b.capacity
    → j ≤ now - b.t
    → IsShort n (k + j) b
    → IsShort n k (refill now b)
unfolding refill
refill-IsShort n now j k b fits waited short =
    let within : n * b.unit ≤ b.capacity * b.unit = grind arith in
    let more : j * b.rate ≤ (now - b.t) * b.rate = grind arith in
    let parts : (k + j) * b.rate ≡ k * b.rate + j * b.rate = grind arith in
    omega (arith, within, more, parts, short)

-- With the tests of a bucket that limits something passed.
consume-eq :
    (now n : ℕ) (b : TokenBucket) → IsBounded b → consume now n b ≡ take_tokens n (refill now b)
unfolding consume
consume-eq now n b h = ground arith

pub time_to_available-eq :
    (now n : ℕ) (b : TokenBucket)
    → IsBounded b
    → time_to_available now n b ≡ (refill now b, ticks_until n (refill now b))
unfolding time_to_available
time_to_available-eq now n b h = ground arith

take_tokens-ok : (n : ℕ) (b : TokenBucket) → n * b.unit ≤ b.tokens → (take_tokens n b).1 ≡ true
unfolding take_tokens
take_tokens-ok n b h = ground arith

take_tokens-short :
    (n : ℕ) (b : TokenBucket) → (take_tokens n b).1 ≡ false → (take_tokens n b).0 ≡ b
unfolding take_tokens
take_tokens-short n b h = ground (arith, h)

pub refill-IsBounded : (now : ℕ) (b : TokenBucket) → IsBounded b → IsBounded (refill now b)
unfolding refill
refill-IsBounded now b h = record { limits = h.limits; room = h.room; full = omega arith }

-- Nothing is missing after the refill: the tokens are given out.
pub consume-there :
    (now n : ℕ) (b : TokenBucket)
    → IsBounded b
    → IsShort n 0 (refill now b)
    → (consume now n b).1 ≡ true
consume-there now n b h there =
    rw (consume-eq now n b h) (take_tokens-ok n (refill now b) (omega (arith, there)))

-- When they are not given out, the bucket has been refilled.
pub consume-short :
    (now n : ℕ) (b : TokenBucket)
    → IsBounded b
    → (consume now n b).1 ≡ false
    → (consume now n b).0 ≡ refill now b
consume-short now n b h short =
    rw (consume-eq now n b h)
      (take_tokens-short n (refill now b) (rw (consume-eq now n b h) at short))

-- One tick after the time that `time_to_available` returns, `consume` gives the tokens out, if
-- the bucket can hold that many.
pub consume-time_to_available :
    (b : TokenBucket) (now n later : ℕ)
    → IsBounded b
    → n ≤ b.capacity
    → now + (time_to_available now n b).1 < later
    → (consume later n (time_to_available now n b).0).1 ≡ true
unfolding refill
consume-time_to_available b now n later h fits waited =
    let b' = refill now b in
    let e = time_to_available-eq now n b h in
    let wait : now + ticks_until n b' < later = rw e at waited in
    rw e (
      consume-there later n b' (refill-IsBounded now b h) (
        refill-IsShort n later (ticks_until n b' + 1) 0 b' fits (omega (arith, wait))
          (omega (arith, ticks_until-IsShort n b' h.limits))))

-- A bucket never gives out more tokens at once than it can hold, however long one waits.
pub consume_over_capacity :
    (b : TokenBucket) (now n : ℕ)
    → IsBounded b
    → 0 < b.unit
    → b.capacity < n
    → (consume now n b).1 ≡ false
unfolding take_tokens refill
consume_over_capacity b now n h pos over =
    let beyond : b.capacity * b.unit < n * b.unit = grind arith in
    rw (consume-eq now n b h) (ground (arith, beyond))
