-- ===== src/Caster/Send/Tests.antt =====
-- The theorems on the send loop at concrete inputs, and a run of the model.
use babilcors.Prelude.{ℕ, ◌≡◌, true, false, none, some, List, [], ◌∷◌, arith}
use mathlib.Core.List.{Sublist}
use babilcors.Prelude.Int.{pos}
use babilcors.Tiers.{TokenBucket}
use babilcors.Tiers.Bucket.{IsBounded}
use babilcors.Caster.Hub.{Session, new_hub}
use babilcors.Caster.Send.{Delay, await_tokens}
use babilcors.Caster.Send.Wait.{await_tokens_ends, await_tokens_never}
use babilcors.Caster.Send.Order.{Step, arrives, turns, run, stream_of, run-Sublist}

abbrev slow_bucket : TokenBucket
slow_bucket = record { rate = 10; unit = 1_000_000_000; capacity = 20; tokens = 0; t = 5 }

slow_bucket-IsBounded : IsBounded slow_bucket
slow_bucket-IsBounded = record { limits = omega arith; room = omega arith; full = omega arith }

abbrev delay : ℕ → ℕ → ℕ → Delay
delay pause early extra = record { pause = pause; early = early; extra = extra }

await_tokens_ends_example :
    (r : ℕ × TokenBucket) × (await_tokens
        (delay 1 5 0 ∷ delay 0 3 3 ∷ delay 0 0 0 ∷ [])
        5
        12
        slow_bucket
      ≡ some r)
await_tokens_ends_example =
    await_tokens_ends (delay 1 5 0) (delay 0 3 3) (delay 0 0 0) [] 5 12 slow_bucket
      slow_bucket-IsBounded (omega arith) (omega arith)

-- A chunk of 21 bytes, and a bucket that holds 20.
await_tokens_never_example :
    await_tokens (delay 0 0 0 ∷ delay 9_000_000_000 0 0 ∷ delay 0 0 7 ∷ []) 5 21 slow_bucket ≡ none
await_tokens_never_example =
    await_tokens_never (delay 0 0 0 ∷ delay 9_000_000_000 0 0 ∷ delay 0 0 7 ∷ []) 5 21 slow_bucket
      slow_bucket-IsBounded (omega arith) (omega arith)

abbrev rover : Session
rover = record {
  id = 1;
  tier = record { rate_limit_bps = pos 0; max_epochs_per_minute = pos 0; max_queue_bytes = pos 3 };
  queue = record { max = 3; buf = []; bytes = 0; closed = false };
  bucket = none;
  ep_last_ts = none;
  dropped_bytes = 0;
  sent_bytes = 0;
  is_closing = false;
  written = [];
}

abbrev steps : List Step
steps = arrives (1 ∷ 2 ∷ []) 5 ∷ arrives (3 ∷ 4 ∷ []) 6 ∷ turns true [] 7 ∷ arrives (5 ∷ []) 8 ∷ []

-- The second chunk does not fit and is left out.
run-Sublist_example :
    Sublist (stream_of (run steps rover new_hub).0) ((1 ∷ 2 ∷ []) ∷ (3 ∷ 4 ∷ []) ∷ (5 ∷ []) ∷ [])
run-Sublist_example = run-Sublist steps rover new_hub
