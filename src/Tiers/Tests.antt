-- ===== src/Tiers/Tests.antt =====
-- The theorems on src/tiers.py at concrete inputs, and runs of the model.
use babilcors.Prelude.{◌+◌, ◌-◌, ◌*◌, ◌≤◌, ◌≡◌, refl, true, false, none, List, [], ◌∷◌, arith}
use babilcors.Prelude.Int.{pos}
use babilcors.Tiers.{
  TokenBucket, consume, time_to_available, refill, ticks_until, ticks_per_second, epoch_gate_ok,
}
use babilcors.Tiers.Bucket.{IsBounded, Request, granted, granted_bound, last_at}
use babilcors.Tiers.Waiting.{consume-time_to_available, consume_over_capacity}
use babilcors.Tiers.Epochs.{passed, next_epoch, passed_bound}

-- The bucket of the repository's own test: ten tokens, ten a second, all of them taken.
abbrev empty_bucket : TokenBucket
empty_bucket = record { rate = 10; unit = 1_000_000_000; capacity = 10; tokens = 0; t = 5 }

empty_bucket-IsBounded : IsBounded empty_bucket
empty_bucket-IsBounded = record { limits = omega arith; room = omega arith; full = omega arith }

empty_wait : (time_to_available 5 1 empty_bucket).1 ≡ 100_000_000
unfolding time_to_available refill ticks_until
empty_wait = refl

abbrev requests : List Request
requests = record { at = 5; amount = 4 } ∷ record { at = 2_000_000_005; amount = 9 } ∷ []

granted_bound_example :
    granted empty_bucket requests * 1_000_000_000
    ≤ 10 * 1_000_000_000 + (last_at 5 requests - 5) * 10
granted_bound_example =
    granted_bound empty_bucket requests empty_bucket-IsBounded (omega arith, (omega arith, tt))

consume-time_to_available_case :
    (consume 100_000_006 1 (time_to_available 5 1 empty_bucket).0).1 ≡ true
consume-time_to_available_case =
    consume-time_to_available empty_bucket 5 1 100_000_006 empty_bucket-IsBounded (omega arith)
      (omega (arith, empty_wait))

consume_over_capacity_case : (consume 7_000_000_000 11 empty_bucket).1 ≡ false
consume_over_capacity_case =
    consume_over_capacity empty_bucket 7_000_000_000 11 empty_bucket-IsBounded (omega arith)
      (omega arith)

passed_bound_example :
    passed none (pos 60) (0 ∷ 100_000_000 ∷ 1_000_000_000 ∷ []) * (60 * ticks_per_second)
    ≤ 60 * ticks_per_second + (1_000_000_000 - 0) * 60
passed_bound_example =
    passed_bound 0 60 (100_000_000 ∷ 1_000_000_000 ∷ []) (omega arith)
      (omega arith, (omega arith, tt))

gate_runs : passed none (pos 60) (0 ∷ 100_000_000 ∷ 1_000_000_000 ∷ []) ≡ 2
unfolding passed next_epoch epoch_gate_ok
gate_runs = refl
