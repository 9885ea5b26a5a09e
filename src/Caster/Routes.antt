-- ===== src/Caster/Routes.antt =====
-- The routes of the admin API in `_handle_http` of src/caster.py that change the configuration
-- file, behind the gate (Jwt) and the rate limit (Admin). The file holds a JSON object. What
-- reads and checks a configuration is the argument `check`; the library `jsonschema` and Python's
-- conversions of JSON values are in `Host`.
pub mod Resources
pub mod Geojson
pub mod Geofences
pub mod Listing
pub mod Operations
pub mod Dispatch
pub mod Rights
pub mod Owners
pub mod Updates
pub mod Answers
mod Tests
use babilcors.Prelude.{
  ℕ, ◌≡◌, Bool, true, false, not, ◌&&◌, ◌||◌, Option, none, some, String, List, if◌then◌else◌,
}
use babilcors.Prelude.Int.{ℤ}
use babilcors.Json.{
  Text, codes, Value, null, bool, int, float, text, array, object, Fields, end, or_empty,
  or_default,
}
use babilcors.Geofence.{Floats}

-- The schemas that bodies are validated by.
pub data Schema : Type 0 where
  new_user user_patch new_tier tier_patch new_mountpoint : Schema

-- `float` and `int` of a value, `none` for an exception; `str` of what is not a text; a float as
-- it is written; and the validation by `jsonschema`.
pub record Host : Type 1 where
  pub floats : Floats
  pub to_float : Value → Option floats.Carrier
  pub of_float : floats.Carrier → Value
  pub to_int : Value → Option ℤ
  pub repr : Value → Text
  pub conforms : Schema → Fields → Bool

unfoldable pub str : Host → Value → Text
str H (text s) = s
str H v = H.repr v

-- The file, if its path is known, and `security` of the configuration that is loaded.
pub record State : Type 0 where
  pub has_path : Bool
  pub raw : Fields
  pub security : Value

-- What an updater makes of the file: new content, an exception, or `PermissionError`.
pub data Updated : Type 0 where
  done : Fields → Updated
  refused denied : Updated

-- `(True, …)`, `(False, …)`, and `PermissionError`, which goes on to the caller.
pub data Result : Type 0 where
  updated failed forbidden : Result

-- `check` is whether the file can be loaded and is valid.
unfoldable pub write : (Value → Bool) → Updated → State → State × Result
write check (done raw) s =
    if check (object raw)
    then (record s { raw = raw; security = or_empty (codes "security") raw }, updated)
    else (s, failed)
write check refused s = (s, failed)
write check denied s = (s, forbidden)

unfoldable pub update_config : (Value → Bool) → (Fields → Updated) → State → State × Result
update_config check updater s =
    if not s.has_path then (s, failed) else write check (updater s.raw) s

-- A status with a body `{"ok": …}`, a status with an error, an exception that ends the
-- connection, and a request that the route leaves to what follows.
pub data Answer : Type 0 where
  status : ℕ → Answer
  error : ℕ → Answer
  breaks passes : Answer

-- By the result of the update.
unfoldable pub answer_by : Answer → Answer → Answer → State × Result → State × Answer
answer_by ok bad no_right (s, updated) = (s, ok)
answer_by ok bad no_right (s, failed) = (s, bad)
answer_by ok bad no_right (s, forbidden) = (s, no_right)

pub data Method : Type 0 where
  get post patch delete other : Method

pub data Resource : Type 0 where
  users tiers mountpoints geofences : Resource
