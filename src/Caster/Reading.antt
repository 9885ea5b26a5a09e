-- ===== src/Caster/Reading.antt =====
-- What `_rover_read_loop` of src/caster.py keeps of a rover, and what it does: the fields of
-- `RoverSession` for NMEA, the configuration that the loop reads, and its effects. `Turns` has
-- the loop, with `Position` for GGA and `Signal` for GSV. A line is a list of ASCII bytes, so that `safe_decode` changes nothing.
pub mod Position
pub mod Signal
pub mod Turns
pub mod Fencing
pub mod Series
pub mod Loop
pub mod Crash
mod Tests
use babilcors.Prelude.{ℕ, Bool, Option, String, List, [], ◌++◌, if◌then◌else◌}
use babilcors.Prelude.Int.{ℤ}
use babilcors.Prelude.Dict.{Dict, string_eq}
use babilcors.Nmea.{Satellite, Zda}
use babilcors.Nmea.Sentences.{Gga, Gsa, Rmc, Vtg}
use babilcors.Geofence.{Point}
use babilcors.Geodesy.{Maths}

-- The device of a shadow: the user, or the mountpoint and the number of the connection.
pub data Device : Type 0 where
  user : String → Device
  connection : String → ℕ → Device

-- After a line the loop goes on, it returns, or it raises an exception.
pub data Outcome : Type 0 where
  continues ends crashes : Outcome

module _ (M : Maths) where
  abbrev pub Float : Type 0
  Float = M.numbers.floats.Carrier

  pub record Rover : Type 0 where
    pub id : ℕ
    pub username : String
    pub mountpoint : String
    pub last_gga : Option (Gga M.numbers)
    pub last_gsa : Option (Gsa M.numbers)
    pub last_rmc : Option (Rmc M.numbers)
    pub last_vtg : Option (Vtg M.numbers)
    pub last_zda : Option Zda
    pub last_gsv_snr_mean : Option Float
    pub last_gsv_total_sv : Option ℤ
    pub pending_total : ℤ
    pub pending_last_num : ℤ
    -- `None` before the first series.
    pub pending_sats : Option (List Satellite)
    pub last_nmea_ts : Float
    pub last_lat : Option Float
    pub last_lon : Option Float
    pub last_pos_ts : Float
    pub geofence_violation_ts : Float
    pub jamming_suspect_ts : Float
    pub spoofing_suspect_ts : Float
    pub is_closing : Bool

  -- A fence of the configuration; `none` where the source's conversion raises an exception.
  pub record Fence : Type 0 where
    pub polygon : Option (List (Point M.numbers.floats))
    pub mode : Option (List ℕ)

  -- A value under `geofence_polygons`: `null`, another value that counts as false, a dictionary,
  -- or anything else.
  pub data Entry : Type 0 where
    null blank other : Entry
    fence : Fence → Entry

  -- The thresholds of `diagnostics`, `none` where a value cannot be converted; the geofence of
  -- each user, if there is one; and the geofences.
  pub record Config : Type 0 where
    pub jump_distance : Option Float
    pub jump_speed : Option Float
    pub snr_low : Option Float
    pub jamming_snr : Option Float
    pub jamming_nsat : Option ℤ
    pub jamming_hdop : Option Float
    pub user_geofences : Dict String (Option String)
    pub geofence_polygons : Dict String Entry

  -- What is merged into a device's shadow, besides the mountpoint and the username. The mean is
  -- rounded to one digit there.
  pub data Payload : Type 0 where
    position : Gga M.numbers → Payload
    quality : Gsa M.numbers → Payload
    signal : ℤ → Float → Payload

  -- `event code severity throttle_s`, and an update of a shadow.
  pub data Effect : Type 0 where
    event : String → String → ℕ → Effect
    upsert : Device → Payload → Effect

  pub record Turn : Type 0 where
    pub rover : Rover
    pub effects : List Effect
    pub outcome : Outcome

module _ (M : Maths) where
  abbrev pub Clock : Type 0
  Clock = ℕ → Float M

  abbrev pub go_on : Rover M → List (Effect M) → Turn M
  go_on s es = record { rover = s; effects = es; outcome = continues }

  unfoldable pub device : Rover M → Device
  device s = if string_eq.beq s.username "" then connection s.mountpoint s.id else user s.username

  abbrev pub with_effects : List (Effect M) → Turn M → Turn M
  with_effects es t = record t { effects = es ++ t.effects }
