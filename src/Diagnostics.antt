-- ===== src/Diagnostics.antt =====
-- `compute_alerts` of src/diagnostics.py, on snapshots whose fields have the types that
-- `MountpointHub.snapshot` gives them. A float is an element of any type with an order test and
-- the numbers that the source writes. An alert keeps its code, severity, mountpoint and
-- connection; its message and context, which are text and copies of the input, are left out.
pub mod Alerts
mod Tests
use babilcors.Prelude.{
  ℕ, ◌≡◌, Bool, true, false, not, ◌&&◌, ◌||◌, Option, none, some, String, List, [], ◌∷◌, ◌++◌, ◌==◌,
  leb, ltb, if◌then◌else◌, or_else,
}
use babilcors.Prelude.Dict.{string_eq}

pub record Floats : Type 1 where
  pub Carrier : Type 0
  pub less : Carrier → Carrier → Bool
  pub of_ℕ : ℕ → Carrier

pub data Code : Type 0 where
  no_source rtcm_stale station_meta_missing nmea_stale no_fix nsat_low snr_low : Code
  geofence_violation jamming_suspect spoofing_suspect antenna_or_rf_suspect : Code

pub data Severity : Type 0 where
  critical warning info : Severity

pub record Alert : Type 0 where
  pub code : Code
  pub severity : Severity
  pub mountpoint : String
  pub conn_id : Option ℕ

module _ (F : Floats) where
  -- A rover's fix quality and number of satellites, from its last GGA sentence.
  pub record Fix : Type 0 where
    pub fixq : ℕ
    pub nsat : ℕ

  pub record Sample : Type 0 where
    pub conn_id : Option ℕ
    pub gga : Option Fix
    pub snr : Option F.Carrier
    pub nmea_age : Option F.Carrier
    pub geofence_violation_recent : Bool
    pub jamming_suspect_recent : Bool
    pub spoofing_suspect_recent : Bool

  pub record Thresholds : Type 0 where
    pub rtcm_stale_s : Option F.Carrier
    pub nmea_stale_s : Option F.Carrier
    pub snr_low_db : Option F.Carrier

  pub record Snapshot : Type 0 where
    pub mountpoint : String
    pub diagnostics_cfg : Thresholds
    pub source_attached : Bool
    pub rtcm_age : Option F.Carrier
    pub has_descriptor : Bool
    pub rover_samples : List Sample

  unfoldable pub alert_if : Bool → Alert → List Alert
  alert_if b a = if b then a ∷ [] else []

  -- `thr.update(diagnostics_cfg)`, for one key.
  unfoldable pub updated : Option F.Carrier → Option F.Carrier → Option F.Carrier
  updated global none = global
  updated global (some v) = some v

  unfoldable pub merge : Thresholds → Thresholds → Thresholds
  merge global own = record {
    rtcm_stale_s = updated global.rtcm_stale_s own.rtcm_stale_s;
    nmea_stale_s = updated global.nmea_stale_s own.nmea_stale_s;
    snr_low_db = updated global.snr_low_db own.snr_low_db;
  }

  -- `_thr`, with its default.
  unfoldable pub threshold : Option F.Carrier → ℕ → F.Carrier
  threshold v default = or_else v (F.of_ℕ default)

  unfoldable pub is_over : Option F.Carrier → F.Carrier → Bool
  is_over none limit = false
  is_over (some age) limit = F.less limit age

  -- `snr >= 0 and snr < low`.
  unfoldable pub is_weak : Option F.Carrier → F.Carrier → Bool
  is_weak none low = false
  is_weak (some snr) low = not (F.less snr (F.of_ℕ 0)) && F.less snr low

  unfoldable pub is_unfixed : Option Fix → Bool
  is_unfixed none = false
  is_unfixed (some g) = g.fixq == 0

  unfoldable pub has_few : Option Fix → Bool
  has_few none = false
  has_few (some g) = leb g.nsat 3

  unfoldable pub has_low : Option Fix → Bool
  has_low none = false
  has_low (some g) = ltb 0 g.nsat && ltb g.nsat 10

  unfoldable pub alert_on : String → Sample → Code → Severity → Alert
  alert_on mp r code severity = record {
    code = code;
    severity = severity;
    mountpoint = mp;
    conn_id = r.conn_id;
  }

  -- The body of the loop over the rovers.
  unfoldable pub rover_alerts : String → Thresholds → Sample → List Alert
  rover_alerts mp thr r =
      alert_if (is_over r.nmea_age (threshold thr.nmea_stale_s 10)) (alert_on mp r nmea_stale info)
      ++ (alert_if (is_unfixed r.gga)
            (alert_on mp r no_fix (if has_few r.gga then critical else warning))
          ++ (alert_if (has_low r.gga) (alert_on mp r nsat_low info)
              ++ (alert_if (is_weak r.snr (threshold thr.snr_low_db 25))
                    (alert_on mp r snr_low info)
                  ++ (alert_if r.geofence_violation_recent
                        (alert_on mp r geofence_violation warning)
                      ++ (alert_if r.jamming_suspect_recent (alert_on mp r jamming_suspect warning)
                          ++ (alert_if r.spoofing_suspect_recent
                                (alert_on mp r spoofing_suspect warning)
                              ++ alert_if
                                  (is_unfixed r.gga && has_few r.gga && is_weak r.snr (F.of_ℕ 25))
                                  (alert_on mp r antenna_or_rf_suspect warning)))))))

  unfoldable pub all_rover_alerts : String → Thresholds → List Sample → List Alert
  all_rover_alerts mp thr [] = []
  all_rover_alerts mp thr (r ∷ rs) = rover_alerts mp thr r ++ all_rover_alerts mp thr rs

  unfoldable pub base_alert : String → Code → Severity → Alert
  base_alert mp code severity = record {
    code = code;
    severity = severity;
    mountpoint = mp;
    conn_id = none;
  }

  unfoldable pub snapshot_alerts : Thresholds → Snapshot → List Alert
  snapshot_alerts global snap =
      let mp = snap.mountpoint in
      let thr = merge global snap.diagnostics_cfg in
      alert_if (not snap.source_attached) (base_alert mp no_source critical)
      ++ (alert_if (is_over snap.rtcm_age (threshold thr.rtcm_stale_s 5))
            (base_alert mp rtcm_stale warning)
          ++ (alert_if (not snap.has_descriptor) (base_alert mp station_meta_missing info)
              ++ all_rover_alerts mp thr snap.rover_samples))

  -- A snapshot without a mountpoint is passed over.
  unfoldable pub compute_alerts : Thresholds → List Snapshot → List Alert
  compute_alerts global [] = []
  compute_alerts global (snap ∷ snaps) =
      let rest = compute_alerts global snaps in
      if string_eq.beq snap.mountpoint "" then rest else snapshot_alerts global snap ++ rest
