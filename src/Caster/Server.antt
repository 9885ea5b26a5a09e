-- ===== src/Caster/Server.antt =====
-- `NtripCaster` of src/caster.py, as far as rovers are admitted and sources accepted: the
-- configuration, the state that these share, and the admission of a rover in `_handle_http`.
-- Between the tests of the limits and the counting no other connection runs, as neither
-- `add_rover` nor what stands between waits; the admission is one step.
pub mod Changes
pub mod Limits
pub mod Replies
pub mod Altered
mod Tests
use babilcors.Prelude.{
  ℕ, suc, ◌+◌, ◌-◌, ◌*◌, max, ◌≡◌, Bool, true, false, not, ◌&&◌, ◌||◌, Option, none, some, String,
  List, [], ◌∷◌, ◌++◌, ◌==◌, ltb, leb, length, if◌then◌else◌, or_else,
}
use babilcors.Prelude.Int.{ℤ, pos, pos_part}
use babilcors.Prelude.Dict.{Eq, nat_eq, string_eq, Dict, lookup, insert}
use babilcors.Rtcm.Messages.{strip}
use babilcors.Net.{is_empty}
use babilcors.Nmea.{Numbers}
use babilcors.Nmea.Sentences.{Gga, parse_gga}
use babilcors.Tiers.{Tier, TokenBucket, new_bucket}
use babilcors.Caster.ByteQueue.{new_queue, close}
use babilcors.Caster.Hub.{Session, Relay, Hub, new_hub, add_rover, remove_rover}

-- `UserRecord` of src/auth.py, less the secrets.
pub record User : Type 0 where
  pub username : String
  pub tier : String
  pub mountpoints : List String

-- The configuration, with the floats that positions are read into.
pub record Config : Type 1 where
  pub numbers : Numbers
  pub users : Dict String User
  pub tiers : Dict String Tier
  pub max_rovers_total : ℤ
  pub max_rovers_per_ip : ℤ
  pub verify_password : User → String → Bool

pub record Server : Type 0 where
  pub mountpoints : Dict String Hub
  pub disabled_mountpoints : List String
  pub id_seq : ℕ
  pub rover_total : ℕ
  pub rover_ip_counts : Dict String ℕ
  pub auth_unauth_total : ℕ
  pub auth_unauth_per_mp : Dict String ℕ
  pub source_unauth_total : ℕ

unfoldable pub has : String → List String → Bool
has x [] = false
has x (y ∷ ys) = string_eq.beq y x || has x ys

unfoldable pub user_can_access : User → String → Bool
user_can_access user mountpoint = has "*" user.mountpoints || has mountpoint user.mountpoints

abbrev pub fresh_hub : Hub
fresh_hub = record new_hub { relay = some (record { maxsize = 4096; queue = [] }) }

-- A mountpoint that is asked for the first time has a new hub, with a relay of its own.
unfoldable pub get_or_create_hub : String → Server → Hub × Server
get_or_create_hub mountpoint s = elim (lookup mountpoint s.mountpoints) [
  | some hub ↦ (hub, s)
  | none ↦ (fresh_hub, record s { mountpoints = insert mountpoint fresh_hub s.mountpoints })
]

-- What a rover asks for: the mountpoint of the path, the credentials of the header, and the header
-- `Ntrip-GGA`, if there is one.
pub record Request : Type 0 where
  pub mountpoint : String
  pub credentials : Option (String × String)
  pub gga_header : Option (List ℕ)
  pub client_ip : String

-- `fails` is the `TypeError` of `gga[0]`, which ends the connection in `_handle_conn`.
pub data Reply : Type 0 where
  forbidden unauthorized fails : Reply
  accepted : ℕ → Reply

unfoldable pub count_unauthorized : String → Server → Server
count_unauthorized mountpoint s = record s {
  auth_unauth_total = s.auth_unauth_total + 1;
  auth_unauth_per_mp =
      insert mountpoint (or_else (lookup mountpoint s.auth_unauth_per_mp) 0 + 1)
        s.auth_unauth_per_mp;
}

unfoldable pub authenticate : Config → Option (String × String) → Option User
authenticate c none = none
authenticate c (some (username, password)) = elim (lookup username c.users) [
  | none ↦ none
  | some user ↦ if c.verify_password user password then some user else none
]

unfoldable pub default_tier : Tier
default_tier = record {
  rate_limit_bps = pos 0;
  max_epochs_per_minute = pos 0;
  max_queue_bytes = pos 262144;
}

-- A bucket that holds what comes in two seconds, if the tier has a rate.
unfoldable pub bucket_of : Tier → ℕ → Option TokenBucket
bucket_of tier now =
    let rate = pos_part tier.rate_limit_bps in
    if ltb 0 rate then some (new_bucket rate 1 (max (rate * 2) 1) now) else none

-- `tier.max_queue_bytes or 262144`.
unfoldable pub queue_size : ℤ → ℤ
queue_size (pos n) = if n == 0 then pos 262144 else pos n
queue_size (ℤ.negsuc n) = ℤ.negsuc n

unfoldable pub new_session : ℕ → Tier → ℕ → Session
new_session id tier now = record {
  id = id;
  tier = tier;
  queue = new_queue (queue_size tier.max_queue_bytes);
  bucket = bucket_of tier now;
  ep_last_ts = none;
  dropped_bytes = 0;
  sent_bytes = 0;
  is_closing = false;
  written = [];
}

-- `max > 0 and n >= max`.
unfoldable pub at_limit : ℤ → ℕ → Bool
at_limit m n = ltb 0 (pos_part m) && leb (pos_part m) n

unfoldable pub register : Request → Session → Server → Server
register r session s =
    let (hub, s') = get_or_create_hub r.mountpoint s in
    record s' {
      mountpoints = insert r.mountpoint (add_rover session hub) s'.mountpoints;
      rover_total = s'.rover_total + 1;
      rover_ip_counts =
          insert r.client_ip (or_else (lookup r.client_ip s'.rover_ip_counts) 0 + 1)
            s'.rover_ip_counts;
    }

-- `gga[0]` and the others in the log line: of `None` that is a `TypeError`, here `none`.
unfoldable pub log_gga : (N : Numbers) → Option (Gga N) → Option (Option (Gga N))
log_gga N none = none
log_gga N (some g) = some (some g)

-- The position of the header, `some none` if there is no header or an empty one.
unfoldable pub read_gga_header : (N : Numbers) → Option (List ℕ) → Option (Option (Gga N))
read_gga_header N none = some none
read_gga_header N (some h) = if is_empty h then some none else log_gga N (parse_gga N (strip h))

unfoldable pub open_session : Config → Tier → Request → ℕ → Server → Server × Reply
open_session c tier r now s =
    let s' : Server = record s { id_seq = s.id_seq + 1 } in
    elim (read_gga_header c.numbers r.gga_header) [
      | none ↦ (s', fails)
      | some gga ↦ (register r (new_session s'.id_seq tier now) s', accepted s'.id_seq)
    ]

unfoldable pub admit_user : Config → User → Request → ℕ → Server → Server × Reply
admit_user c user r now s =
    if not (user_can_access user r.mountpoint)
    then (s, forbidden)
    else if at_limit c.max_rovers_total s.rover_total
    then (s, forbidden)
    else if at_limit c.max_rovers_per_ip (or_else (lookup r.client_ip s.rover_ip_counts) 0)
    then (s, forbidden)
    else open_session c (or_else (lookup user.tier c.tiers) default_tier) r now s

unfoldable pub admit_found : Config → Option User → Request → ℕ → Server → Server × Reply
admit_found c none r now s = (count_unauthorized r.mountpoint s, unauthorized)
admit_found c (some user) r now s = admit_user c user r now s

unfoldable pub admit : Config → Request → ℕ → Server → Server × Reply
admit c r now s =
    if has r.mountpoint s.disabled_mountpoints
    then (s, forbidden)
    else admit_found c (authenticate c r.credentials) r now s

-- What follows when a rover's tasks have ended: the hub and the counters let it go. The session
-- itself is no longer reached, so that the closing of its queue is not seen.
unfoldable pub release : String → String → ℕ → Server → Server
release mountpoint ip id s = record s {
  mountpoints = elim (lookup mountpoint s.mountpoints) [
    | none ↦ s.mountpoints
    | some hub ↦ insert mountpoint (remove_rover id hub) s.mountpoints
  ];
  rover_total = s.rover_total - 1;
  rover_ip_counts = insert ip (or_else (lookup ip s.rover_ip_counts) 1 - 1) s.rover_ip_counts;
}

-- How an admitted rover's connection ends. If `_send_icy_ok` raises, or the handler is cancelled
-- while it waits for the rover's tasks, the first argument is false, and the handler is left before
-- what follows: the session stays in its hub, and the counters as they are.
unfoldable pub end_connection : Bool → String → String → ℕ → Server → Server
end_connection false mountpoint ip id s = s
end_connection true mountpoint ip id s = release mountpoint ip id s
