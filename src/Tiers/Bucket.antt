-- ===== src/Tiers/Bucket.antt =====
-- What the token bucket lets through.
use babilcors.Prelude.{
  ℕ, ◌+◌, ◌-◌, ◌*◌, ◌≤◌, ◌<◌, ◌≡◌, ap, sym, subst, List, [], ◌∷◌, arith, if◌then◌else◌,
}
use babilcors.Tiers.{TokenBucket, refill, take_tokens, consume, time_to_available}

-- The bucket limits something, and holds no more than it can.
pub record IsBounded (b : TokenBucket) : Type 0 where
  pub limits : 0 < b.rate
  pub room : 0 < b.capacity
  pub full : b.tokens ≤ b.capacity * b.unit

refill-IsBounded : (now : ℕ) (b : TokenBucket) → IsBounded b → IsBounded (refill now b)
unfolding refill
refill-IsBounded now b h = record { limits = h.limits; room = h.room; full = omega arith }

take_tokens-IsBounded : (n : ℕ) (b : TokenBucket) → IsBounded b → IsBounded (take_tokens n b).0
unfolding take_tokens
take_tokens-IsBounded n b h = ground arith

pub consume-IsBounded : (now n : ℕ) (b : TokenBucket) → IsBounded b → IsBounded (consume now n b).0
unfolding consume
consume-IsBounded now n b h =
    ground (arith, take_tokens-IsBounded n (refill now b), refill-IsBounded now b)

pub time_to_available-IsBounded :
    (now n : ℕ) (b : TokenBucket) → IsBounded b → IsBounded (time_to_available now n b).0
unfolding time_to_available
time_to_available-IsBounded now n b h = ground (arith, refill-IsBounded now b)

-- A request: when it is made, and for how many tokens.
pub record Request : Type 0 where
  pub at : ℕ
  pub amount : ℕ

-- The bucket after the requests, and how many tokens it gave out.
pub run : TokenBucket → List Request → TokenBucket
run b [] = b
run b (r ∷ rs) = run (consume r.at r.amount b).0 rs

unfoldable pub granted : TokenBucket → List Request → ℕ
granted b [] = 0
granted b (r ∷ rs) =
    let (b', done) = consume r.at r.amount b in (if done then r.amount else 0) + granted b' rs

-- The requests come one after the other, from a time on.
abbrev pub InOrder : ℕ → List Request → Type 0
InOrder t [] = Unit
InOrder t (r ∷ rs) = (t ≤ r.at) × InOrder r.at rs

-- What a call gives out was in the bucket, or came in since the last one.
consume_account :
    (now n : ℕ) (b : TokenBucket)
    → IsBounded b
    → let (b', done) = consume now n b in
      ((if done then n else 0) * b.unit + b'.tokens ≤ b.tokens + (now - b.t) * b.rate)
      × (b'.t ≡ now)
      × (b'.rate ≡ b.rate)
      × (b'.unit ≡ b.unit)
      × (b'.capacity ≡ b.capacity)
unfolding consume take_tokens refill
consume_account now n b h = ground arith

abbrev pub last_at : ℕ → List Request → ℕ
last_at t [] = t
last_at t (r ∷ rs) = last_at r.at rs

last_at-le : (t : ℕ) (rs : List Request) → InOrder t rs → t ≤ last_at t rs
last_at-le t [] h = omega arith
last_at-le t (r ∷ rs) (h, hs) = omega (arith, last_at-le r.at rs hs)

pub elapsed_split :
    (t u v rate : ℕ) → t ≤ u → u ≤ v → (u - t) * rate + (v - u) * rate ≡ (v - t) * rate
elapsed_split t u v rate h k =
    let whole : (u - t) + (v - u) ≡ v - t = omega arith in
    omega (arith, ap (λ (d : ℕ). d * rate) whole)

run_account :
    (b : TokenBucket) (rs : List Request)
    → IsBounded b
    → InOrder b.t rs
    → granted b rs * b.unit + (run b rs).tokens ≤ b.tokens + (last_at b.t rs - b.t) * b.rate
unfolding run granted
run_account b [] h order = omega arith
run_account b (r ∷ rs) h (o, os) =
    let b' = (consume r.at r.amount b).0 in
    let (paid, now, same_rate, same_unit, _) = consume_account r.at r.amount b h in
    let later : granted b' rs * b.unit + (run b' rs).tokens
        ≤ b'.tokens + (last_at r.at rs - r.at) * b.rate =
      subst
        (λ (u : ℕ).
          granted b' rs * u + (run b' rs).tokens ≤ b'.tokens + (last_at r.at rs - r.at) * b.rate)
        same_unit
        (subst
          (λ (v : ℕ).
            granted b' rs * b'.unit + (run b' rs).tokens ≤ b'.tokens + (last_at r.at rs - r.at) * v)
          same_rate
          (subst
            (λ (u : ℕ).
              granted b' rs * b'.unit + (run b' rs).tokens
              ≤ b'.tokens + (last_at u rs - u) * b'.rate)
            now
            (run_account b' rs (consume-IsBounded r.at r.amount b h)
              (subst (λ (u : ℕ). InOrder u rs) (sym now) os)))) in
    omega (
      arith,
      paid,
      later,
      elapsed_split b.t r.at (last_at r.at rs) b.rate o (last_at-le r.at rs os),
    )

-- However the requests are spread, the bucket gives out no more than it holds when full, and
-- what comes in at its rate from its last refill to the last request.
pub granted_bound :
    (b : TokenBucket) (rs : List Request)
    → IsBounded b
    → InOrder b.t rs
    → granted b rs * b.unit ≤ b.capacity * b.unit + (last_at b.t rs - b.t) * b.rate
granted_bound b rs h order = omega (arith, run_account b rs h order, h.full)
