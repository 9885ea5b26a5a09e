-- ===== src/Caster/Admin.antt =====
-- The rate limit of the admin API and `_kick_rover` of src/caster.py.
pub mod Rate
pub mod Kick
mod Tests
use babilcors.Prelude.{
  ℕ, ◌+◌, max, ◌≡◌, Bool, true, false, Option, none, some, String, List, [], ◌∷◌, ◌++◌, ◌==◌,
  if◌then◌else◌,
}
use babilcors.Prelude.Int.{ℤ, pos_part}
use babilcors.Prelude.Dict.{string_eq, Dict, lookup, insert}
use babilcors.Tiers.{TokenBucket, new_bucket, consume}
use babilcors.Caster.Hub.{Session, Hub, hang_up}

-- `_admin_buckets`.
abbrev pub Buckets : Type 0
Buckets = Dict String TokenBucket

-- A bucket for so many calls a minute; a rate of one a minute is over the 0.001 of the source.
unfoldable pub bucket_for : String → ℕ → ℕ → Buckets → TokenBucket
bucket_for ip limit now buckets = elim (lookup ip buckets) [
  | none ↦ new_bucket limit 60 (max limit 1) now
  | some b ↦ b
]

unfoldable pub admin_rate_ok : ℤ → String → ℕ → Buckets → Buckets × Bool
admin_rate_ok limit ip now buckets =
    let (b, ok) = consume now 1 (bucket_for ip (pos_part limit) now buckets) in
    if pos_part limit == 0 then (buckets, true) else (insert ip b buckets, ok)

-- The loop over a hub's rovers, up to the first with this number.
unfoldable pub kick_in : ℕ → List Session → List Session × Bool
kick_in conn_id [] = ([], false)
kick_in conn_id (s ∷ ss) =
    let (rest, found) = kick_in conn_id ss in
    if s.id == conn_id then (hang_up s ∷ ss, true) else (s ∷ rest, found)

unfoldable pub kick_rover : ℕ → String → Dict String Hub → Dict String Hub × Bool
kick_rover conn_id mountpoint hubs = elim (lookup mountpoint hubs) [
  | none ↦ (hubs, false)
  | some hub ↦
      let (rovers, found) = kick_in conn_id hub.rovers in
      (insert mountpoint (record hub { rovers = rovers }) hubs, found)
]
