-- ===== src/Diagnostics/Tests.antt =====
-- The theorems on alerts at concrete snapshots, with whole numbers for floats.
use babilcors.Prelude.{ℕ, ◌≡◌, refl, true, false, none, some, [], ◌∷◌, ◌++◌, All, ltb}
use babilcors.Diagnostics.{
  Floats, Sample, Thresholds, Snapshot, critical, no_source, base_alert, rover_alerts,
  snapshot_alerts, compute_alerts, is_over, merge, threshold, updated,
}
use babilcors.Diagnostics.Alerts.{
  IsFounded, rover_alerts-IsFounded, compute_alerts-append, snapshot_alerts-base,
}

abbrev whole : Floats
whole = record { Carrier = ℕ; less = ltb; of_ℕ = λ n. n }

abbrev defaults : Thresholds whole
defaults = record { rtcm_stale_s = none; nmea_stale_s = none; snr_low_db = none }

abbrev blind : Sample whole
blind = record {
  conn_id = some 7;
  gga = some (record { fixq = 0; nsat = 2 });
  snr = some 11;
  nmea_age = some 3;
  geofence_violation_recent = false;
  jamming_suspect_recent = true;
  spoofing_suspect_recent = false;
}

abbrev idle : Snapshot whole
idle = record {
  mountpoint = "RTCM3";
  diagnostics_cfg = defaults;
  source_attached = false;
  rtcm_age = some 2;
  has_descriptor = true;
  rover_samples = [];
}

rover_alerts-IsFounded_case :
    All (IsFounded whole "RTCM3" defaults blind) (rover_alerts whole "RTCM3" defaults blind)
rover_alerts-IsFounded_case = rover_alerts-IsFounded whole "RTCM3" defaults blind

compute_alerts-append_case :
    compute_alerts whole defaults (idle ∷ idle ∷ [])
    ≡ compute_alerts whole defaults (idle ∷ []) ++ compute_alerts whole defaults (idle ∷ [])
compute_alerts-append_case = compute_alerts-append whole defaults (idle ∷ []) (idle ∷ [])

idle-fresh :
    is_over whole (some 2) (threshold whole (merge whole defaults defaults).rtcm_stale_s 5) ≡ false
unfolding is_over threshold merge updated
idle-fresh = refl

snapshot_alerts-base_case :
    snapshot_alerts whole defaults idle ≡ base_alert whole "RTCM3" no_source critical ∷ []
snapshot_alerts-base_case = snapshot_alerts-base whole defaults idle idle-fresh refl refl
