-- ===== src/Caster/Send/Wait.antt =====
-- The wait for tokens: when it ends, when it cannot, and what the tokens cost.
use babilcors.Prelude.{
  ℕ, ◌+◌, ◌-◌, ◌≤◌, ◌<◌, max, ◌≡◌, refl, sym, ap, subst, ◌∙◌, inl, inr, true, false, none, some,
  List, [], ◌∷◌, arith, Bool-cases,
}
use babilcors.Tiers.{TokenBucket, refill, take_tokens, consume, ticks_until, time_to_available}
use babilcors.Tiers.Bucket.{IsBounded, consume-IsBounded, time_to_available-IsBounded}
use babilcors.Tiers.Waiting.{
  IsShort, ticks_until-IsShort, refill-IsShort, IsShort-le, refill-IsBounded, time_to_available-eq,
  consume-there, consume-short, consume_over_capacity,
}
use babilcors.Caster.Send.{Delay, await_tokens, shortest_wait}

-- The parts of a bucket that stay.
pub record IsSame (b b' : TokenBucket) : Type 0 where
  pub rate : b'.rate ≡ b.rate
  pub unit : b'.unit ≡ b.unit
  pub capacity : b'.capacity ≡ b.capacity

consume-IsSame : (now n : ℕ) (b : TokenBucket) → IsSame b (consume now n b).0
unfolding consume take_tokens refill
consume-IsSame now n b = ground arith

time_to_available-IsSame : (now n : ℕ) (b : TokenBucket) → IsSame b (time_to_available now n b).0
unfolding time_to_available refill
time_to_available-IsSame now n b = ground arith

await_tokens-now :
    (d : Delay) (delays : List Delay) (now n : ℕ) (b : TokenBucket)
    → (consume now n b).1 ≡ true
    → await_tokens (d ∷ delays) now n b ≡ some (now, (consume now n b).0)
unfolding await_tokens
await_tokens-now d delays now n b e = rw e refl

-- The state in which the next round of the loop begins.
abbrev pub next_time : Delay → ℕ → ℕ → TokenBucket → ℕ
next_time d now n b =
    now
    + d.pause
    + (max (time_to_available (now + d.pause) n (consume now n b).0).1 shortest_wait
        - d.early
        + d.extra)

abbrev pub next_bucket : Delay → ℕ → ℕ → TokenBucket → TokenBucket
next_bucket d now n b = (time_to_available (now + d.pause) n (consume now n b).0).0

await_tokens-later :
    (d : Delay) (delays : List Delay) (now n : ℕ) (b : TokenBucket)
    → (consume now n b).1 ≡ false
    → await_tokens (d ∷ delays) now n b
      ≡ await_tokens delays (next_time d now n b) n (next_bucket d now n b)
unfolding await_tokens
await_tokens-later d delays now n b e = rw e refl

refill-time : (now : ℕ) (b : TokenBucket) → (refill now b).t ≡ now
unfolding refill
refill-time now b = refl

-- What is still missing when the next round begins, after a wait that is as long as was missing
-- or that is a shortest wait.
next-IsShort :
    (d : Delay) (now n k : ℕ) (b : TokenBucket)
    → IsBounded b
    → n ≤ b.capacity
    → (consume now n b).1 ≡ false
    → IsShort n
        (k + (max (ticks_until n (refill (now + d.pause) (refill now b))) shortest_wait - d.early))
        (refill (now + d.pause) (refill now b))
    → IsShort n k (refill (next_time d now n b) (next_bucket d now n b))
unfolding refill
next-IsShort d now n k b h fits none_yet short =
    let b₁ = refill now b in
    let b₂ = refill (now + d.pause) b₁ in
    let slept = max (ticks_until n b₂) shortest_wait - d.early in
    let waits = time_to_available-eq (now + d.pause) n b₁ (refill-IsBounded now b h) in
    let refilled =
      ap (λ c. time_to_available (now + d.pause) n c) (consume-short now n b h none_yet) ∙ waits in
    subst
      (λ (p : TokenBucket × ℕ).
        IsShort n k (refill (now + d.pause + (max p.1 shortest_wait - d.early + d.extra)) p.0))
      (sym refilled)
      (refill-IsShort n (now + d.pause + (slept + d.extra)) slept k b₂ fits
        (omega (arith, refill-time (now + d.pause) b₁)) short)

next-IsBounded :
    (d : Delay) (now n : ℕ) (b : TokenBucket) → IsBounded b → IsBounded (next_bucket d now n b)
next-IsBounded d now n b h =
    time_to_available-IsBounded (now + d.pause) n (consume now n b).0 (consume-IsBounded now n b h)

next_fits :
    (d : Delay) (now n : ℕ) (b : TokenBucket)
    → n ≤ b.capacity
    → n ≤ (next_bucket d now n b).capacity
next_fits d now n b fits = omega (
  arith,
  fits,
  (consume-IsSame now n b).capacity,
  (time_to_available-IsSame (now + d.pause) n (consume now n b).0).capacity,
)

refill-IsSame : (now : ℕ) (b : TokenBucket) → IsSame b (refill now b)
unfolding refill
refill-IsSame now b = record { rate = refl; unit = refl; capacity = refl }

-- The first wait leaves at most what it was too short by, and one tick.
first-IsShort :
    (d : Delay) (now n : ℕ) (b : TokenBucket)
    → IsBounded b
    → n ≤ b.capacity
    → (consume now n b).1 ≡ false
    → d.early < shortest_wait
    → IsShort n (d.early + 1) (refill (next_time d now n b) (next_bucket d now n b))
first-IsShort d now n b h fits none_yet close =
    let b₂ = refill (now + d.pause) (refill now b) in
    let h₂ = refill-IsBounded (now + d.pause) (refill now b) (refill-IsBounded now b h) in
    next-IsShort d now n (d.early + 1) b h fits none_yet (
      IsShort-le n (ticks_until n b₂ + 1)
        (d.early + 1 + (max (ticks_until n b₂) shortest_wait - d.early)) b₂ (omega (arith, close))
        (ticks_until-IsShort n b₂ h₂.limits))

-- A shortest wait makes up for that.
second-IsShort :
    (d : Delay) (now n k : ℕ) (b : TokenBucket)
    → IsBounded b
    → n ≤ b.capacity
    → (consume now n b).1 ≡ false
    → IsShort n k (refill now b)
    → k + d.early ≤ shortest_wait
    → IsShort n 0 (refill (next_time d now n b) (next_bucket d now n b))
second-IsShort d now n k b h fits none_yet short close =
    let b₁ = refill now b in
    let b₂ = refill (now + d.pause) b₁ in
    next-IsShort d now n 0 b h fits none_yet (
      IsShort-le n k (0 + (max (ticks_until n b₂) shortest_wait - d.early)) b₂
        (omega (arith, close))
        (refill-IsShort n (now + d.pause) 0 k b₁
          (omega (arith, fits, (refill-IsSame now b).capacity)) (omega arith)
          (IsShort-le n k (k + 0) b₁ (omega arith) short)))

-- A wait for tokens that the bucket can hold ends in the third round at the latest, however long
-- the sleep and the readings of the clock take, if the first two sleeps together are too short by
-- less than a thousandth of a second.
pub await_tokens_ends :
    (d₁ d₂ d₃ : Delay) (delays : List Delay) (now n : ℕ) (b : TokenBucket)
    → IsBounded b
    → n ≤ b.capacity
    → d₁.early + d₂.early < shortest_wait
    → (r : ℕ × TokenBucket) × (await_tokens (d₁ ∷ d₂ ∷ d₃ ∷ delays) now n b ≡ some r)
await_tokens_ends d₁ d₂ d₃ delays now n b h fits close = elim (Bool-cases (consume now n b).1) [
  | inl there ↦ ((now, (consume now n b).0), await_tokens-now d₁ (d₂ ∷ d₃ ∷ delays) now n b there)
  | inr short ↦
      let now₂ = next_time d₁ now n b in
      let b₂ = next_bucket d₁ now n b in
      let h₂ = next-IsBounded d₁ now n b h in
      let fits₂ = next_fits d₁ now n b fits in
      let s₂ = first-IsShort d₁ now n b h fits short (omega (arith, close)) in
      elim (Bool-cases (consume now₂ n b₂).1) [
        | inl there ↦ (
          (now₂, (consume now₂ n b₂).0),
          await_tokens-later d₁ (d₂ ∷ d₃ ∷ delays) now n b short
              ∙ await_tokens-now d₂ (d₃ ∷ delays) now₂ n b₂ there,
        )
        | inr short₂ ↦
            let now₃ = next_time d₂ now₂ n b₂ in
            let b₃ = next_bucket d₂ now₂ n b₂ in
            let done : (consume now₃ n b₃).1 ≡ true =
              consume-there now₃ n b₃ (next-IsBounded d₂ now₂ n b₂ h₂) (
                second-IsShort d₂ now₂ n (d₁.early + 1) b₂ h₂ fits₂ short₂ s₂
                  (omega (arith, close))) in
            (
              (now₃, (consume now₃ n b₃).0),
              await_tokens-later d₁ (d₂ ∷ d₃ ∷ delays) now n b short
                  ∙ await_tokens-later d₂ (d₃ ∷ delays) now₂ n b₂ short₂
                  ∙ await_tokens-now d₃ delays now₃ n b₃ done,
            )
      ]
]

-- A wait for more tokens than the bucket can hold never ends.
pub await_tokens_never :
    (delays : List Delay) (now n : ℕ) (b : TokenBucket)
    → IsBounded b
    → 0 < b.unit
    → b.capacity < n
    → await_tokens delays now n b ≡ none
unfolding await_tokens
await_tokens_never [] now n b h pos over = refl
await_tokens_never (d ∷ delays) now n b h pos over =
    let b₁ = (consume now n b).0 in
    let b₂ = next_bucket d now n b in
    let s₁ = consume-IsSame now n b in
    let s₂ = time_to_available-IsSame (now + d.pause) n b₁ in
    await_tokens-later d delays now n b (consume_over_capacity b now n h pos over)
    ∙ await_tokens_never delays (next_time d now n b) n b₂
        (time_to_available-IsBounded (now + d.pause) n b₁ (consume-IsBounded now n b h))
        (omega (arith, s₁.unit, s₂.unit)) (omega (arith, s₁.capacity, s₂.capacity))
