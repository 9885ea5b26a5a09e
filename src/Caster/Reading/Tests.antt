-- ===== src/Caster/Reading/Tests.antt =====
-- The theorems on the loop over a rover's lines at concrete ones, with whole numbers for floats.
use babilcors.Prelude.{ℕ, ◌+◌, ◌≡◌, ◌≢◌, refl, false, none, some, Option, List, [], ◌∷◌, arith}
use babilcors.Prelude.Int.{pos}
use babilcors.Text.{join}
use babilcors.Nmea.{Satellite, Gsv}
use babilcors.Nmea.Checksum.{seal}
use babilcors.Geofence.{Point}
use babilcors.Geodesy.Whole.{whole_floats, whole_maths}
use babilcors.Caster.Reading.{Rover, Fence, fence, Config, crashes, Clock}
use babilcors.Caster.Reading.Signal.{on_gsv, snrs, mean}
use babilcors.Caster.Reading.Turns.{read_loop}
use babilcors.Caster.Reading.Fencing.{Verdict, read_loop-Verdict}
use babilcors.Caster.Reading.Series.{all_sats, run_series, run_series-whole}
use babilcors.Caster.Reading.Crash.{on_gsv-crashes, read_loop-ne-crashes}

abbrev rover : Rover whole_maths
rover = record {
  id = 1;
  username = "rover";
  mountpoint = "RTCM3";
  last_gga = none;
  last_gsa = none;
  last_rmc = none;
  last_vtg = none;
  last_zda = none;
  last_gsv_snr_mean = none;
  last_gsv_total_sv = none;
  pending_total = pos 0;
  pending_last_num = pos 0;
  pending_sats = none;
  last_nmea_ts = 0;
  last_lat = none;
  last_lon = none;
  last_pos_ts = 0;
  geofence_violation_ts = 0;
  jamming_suspect_ts = 0;
  spoofing_suspect_ts = 0;
  is_closing = false;
}

abbrev corner : ℕ → ℕ → Point whole_floats
corner lat lon = record { lat = lat; lon = lon }

abbrev around : Fence whole_maths
around = record {
  polygon = some (corner 0 0 ∷ corner 0 4 ∷ corner 4 4 ∷ corner 4 0 ∷ []);
  mode = some (b'B' ∷ b'l' ∷ b'o' ∷ b'c' ∷ b'k' ∷ []);
}

abbrev config : Config whole_maths
config = record {
  jump_distance = some 500;
  jump_speed = some 80;
  snr_low = some 25;
  jamming_snr = some 20;
  jamming_nsat = some (pos 8);
  jamming_hdop = some 3;
  user_geofences = ("rover", some "field") ∷ [];
  geofence_polygons = ("field", fence around) ∷ [];
}

abbrev clock : Clock whole_maths
clock i = 10 + i

-- A position in another place than the field.
abbrev far_away : List ℕ
far_away = seal (
    join 44 (
      (b'G' ∷ b'P' ∷ b'G' ∷ b'G' ∷ b'A' ∷ [])
      ∷ []
      ∷ (b'4' ∷ b'1' ∷ b'0' ∷ b'0' ∷ [])
      ∷ (b'N' ∷ [])
      ∷ (b'0' ∷ b'2' ∷ b'9' ∷ b'0' ∷ b'0' ∷ [])
      ∷ (b'E' ∷ [])
      ∷ (b'4' ∷ [])
      ∷ []
      ∷ []
      ∷ []
      ∷ []
      ∷ []
      ∷ []
      ∷ []
      ∷ []
      ∷ []))

abbrev lines : List (Option (List ℕ) × Clock whole_maths)
lines = (some (b'x' ∷ []), clock) ∷ (some far_away, clock) ∷ (none, clock) ∷ []

read_loop-Verdict_example :
    Verdict whole_maths config
      (read_loop whole_maths config lines rover).rover
      (read_loop whole_maths config lines rover).outcome
read_loop-Verdict_example = read_loop-Verdict whole_maths config lines rover (refl, λ g e. cc)

abbrev satellite : ℕ → ℕ → Satellite
satellite prn snr = record { prn = pos prn; elevation = pos 40; azimuth = pos 90; snr = pos snr }

abbrev sentence : ℕ → ℕ → List Satellite → Gsv
sentence total num sats = record {
  total_sent = pos total;
  sent_num = pos num;
  total_sv = pos 3;
  sats = sats;
}

abbrev series : List (Gsv × Clock whole_maths)
series =
    (sentence 2 1 (satellite 5 40 ∷ satellite 7 0 ∷ []), clock)
    ∷ (sentence 2 2 (satellite 9 30 ∷ []), clock)
    ∷ []

run_series-whole_example :
    (run_series whole_maths config series rover).last_gsv_snr_mean
    ≡ some (mean whole_maths (snrs (all_sats series)))
run_series-whole_example =
    run_series-whole whole_maths config series rover 2 (omega arith)
      (refl, refl, (refl, refl, refl))

-- 40 and 30: the satellite without a signal is left out.
series-mean : mean whole_maths (snrs (all_sats series)) ≡ 35
unfolding mean snrs
series-mean = refl

on_gsv-crashes_case :
    (on_gsv whole_maths config clock rover (some (sentence 0 2 []))).outcome ≡ crashes
on_gsv-crashes_case =
    on_gsv-crashes whole_maths config clock rover (sentence 0 2 []) refl refl (ground arith)

read_loop-ne-crashes_case :
    (read_loop whole_maths config lines (record rover { pending_sats = some [] })).outcome ≢ crashes
read_loop-ne-crashes_case =
    read_loop-ne-crashes whole_maths config 25 lines (record rover { pending_sats = some [] }) []
      refl refl
