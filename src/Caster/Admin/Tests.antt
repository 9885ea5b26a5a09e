-- ===== src/Caster/Admin/Tests.antt =====
-- The theorems on the admin API at concrete inputs.
use babilcors.Prelude.{
  ℕ, ◌+◌, ◌-◌, ◌*◌, ◌≤◌, ◌≡◌, refl, false, none, some, String, List, [], ◌∷◌, map, arith,
}
use babilcors.Prelude.Int.{pos}
use babilcors.Prelude.Dict.{string_eq, lookup}
use babilcors.Tiers.{TokenBucket}
use babilcors.Tiers.Bucket.{IsBounded, last_at}
use babilcors.Caster.Hub.{Session, has_rover}
use babilcors.Caster.Hub.Totals.{AreDistinct}
use babilcors.Caster.Admin.{Buckets, kick_in}
use babilcors.Caster.Admin.Kick.{hung_up_if, kick_in-hung_up_if}
use babilcors.Caster.Admin.Rate.{allowed, requests_of, allowed_bound}

abbrev rover : ℕ → Session
rover id = record {
  id = id;
  tier = record { rate_limit_bps = pos 0; max_epochs_per_minute = pos 0; max_queue_bytes = pos 3 };
  queue = record { max = 3; buf = []; bytes = 0; closed = false };
  bucket = none;
  ep_last_ts = none;
  dropped_bytes = 0;
  sent_bytes = 0;
  is_closing = false;
  written = [];
}

abbrev rovers : List Session
rovers = rover 1 ∷ rover 2 ∷ []

rovers-AreDistinct : AreDistinct rovers
unfolding has_rover
rovers-AreDistinct = (refl, (refl, tt))

kick_in-hung_up_if_case :
    ((kick_in 2 rovers).0 ≡ map (hung_up_if 2) rovers) × ((kick_in 2 rovers).1 ≡ has_rover 2 rovers)
kick_in-hung_up_if_case = kick_in-hung_up_if 2 rovers rovers-AreDistinct

-- Two calls a minute.
abbrev bucket : TokenBucket
bucket = record { rate = 2; unit = 60_000_000_000; capacity = 2; tokens = 120_000_000_000; t = 5 }

abbrev buckets : Buckets
buckets = ("10.0.0.1", bucket) ∷ []

abbrev calls : List (String × ℕ)
calls = ("10.0.0.1", 6) ∷ ("10.0.0.2", 7) ∷ ("10.0.0.1", 8) ∷ []

bucket-found : lookup "10.0.0.1" buckets ≡ some bucket
unfolding lookup
bucket-found = refl

bucket-IsBounded : IsBounded bucket
bucket-IsBounded = record { limits = omega arith; room = omega arith; full = omega arith }

allowed_bound_example :
    allowed (pos 2) "10.0.0.1" calls buckets * 60_000_000_000
    ≤ 2 * 60_000_000_000 + (last_at 5 (requests_of "10.0.0.1" calls) - 5) * 2
allowed_bound_example =
    allowed_bound (pos 2) "10.0.0.1" calls buckets bucket (omega arith) bucket-found
      bucket-IsBounded (omega arith, (omega arith, tt))
