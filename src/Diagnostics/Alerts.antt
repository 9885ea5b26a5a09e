-- ===== src/Diagnostics/Alerts.antt =====
-- What the alerts say.
use babilcors.Prelude.{
  ◌≡◌, refl, sym, inl, inr, Bool, true, false, ◌&&◌, String, List, [], ◌∷◌, ◌++◌, append_assoc, All,
  All-append, if◌then◌else◌, arith, Bool-cases,
}
use babilcors.Prelude.Dict.{string_eq}
use babilcors.Diagnostics.{
  Floats, Code, no_source, nmea_stale, no_fix, nsat_low, snr_low, geofence_violation,
  jamming_suspect, spoofing_suspect, antenna_or_rf_suspect, Severity, critical, warning, info,
  Alert, Sample, Thresholds, Snapshot, alert_if, merge, threshold, is_over, is_weak, is_unfixed,
  has_few, has_low, alert_on, rover_alerts, all_rover_alerts, base_alert, snapshot_alerts,
  compute_alerts,
}

module _ (F : Floats) where
  -- Why a rover alert is raised.
  pub data Reason (thr : Thresholds F) (r : Sample F) : Code → Severity → Type 0 where
    stale :
        is_over F r.nmea_age (threshold F thr.nmea_stale_s 10) ≡ true → Reason thr r nmea_stale info
    unfixed : is_unfixed F r.gga ≡ true → has_few F r.gga ≡ false → Reason thr r no_fix warning
    blind : is_unfixed F r.gga ≡ true → has_few F r.gga ≡ true → Reason thr r no_fix critical
    few : has_low F r.gga ≡ true → Reason thr r nsat_low info
    weak : is_weak F r.snr (threshold F thr.snr_low_db 25) ≡ true → Reason thr r snr_low info
    outside : r.geofence_violation_recent ≡ true → Reason thr r geofence_violation warning
    jammed : r.jamming_suspect_recent ≡ true → Reason thr r jamming_suspect warning
    spoofed : r.spoofing_suspect_recent ≡ true → Reason thr r spoofing_suspect warning
    antenna :
        is_unfixed F r.gga ≡ true
        → has_few F r.gga ≡ true
        → is_weak F r.snr (F.of_ℕ 25) ≡ true
        → Reason thr r antenna_or_rf_suspect warning

  pub record IsFounded (mp : String) (thr : Thresholds F) (r : Sample F) (a : Alert) : Type 0 where
    pub reason : Reason thr r a.code a.severity
    pub place : a.mountpoint ≡ mp
    pub rover : a.conn_id ≡ r.conn_id

  alert_if-All :
      (P : Alert → Type 0) (b : Bool) (a : Alert) → (b ≡ true → P a) → All P (alert_if F b a)
  unfolding alert_if
  alert_if-All P true a h = (h refl, tt)
  alert_if-All P false a h = tt

  both_true : (a b : Bool) → a && b ≡ true → (a ≡ true) × (b ≡ true)
  both_true a b e = ground (arith, e)

  unfixed_alert :
      (mp : String) (thr : Thresholds F) (r : Sample F) (few_there : Bool)
      → is_unfixed F r.gga ≡ true
      → has_few F r.gga ≡ few_there
      → IsFounded mp thr r (alert_on F mp r no_fix (if few_there then critical else warning))
  unfolding alert_on
  unfixed_alert mp thr r true u f = record { reason = blind u f; place = refl; rover = refl }
  unfixed_alert mp thr r false u f = record { reason = unfixed u f; place = refl; rover = refl }

  founded :
      (mp : String) (thr : Thresholds F) (r : Sample F) (code : Code) (severity : Severity)
      → Reason thr r code severity
      → IsFounded mp thr r (alert_on F mp r code severity)
  unfolding alert_on
  founded mp thr r code severity why = record { reason = why; place = refl; rover = refl }

  -- Every alert on a rover has its reason: what its code says holds of the rover's sample under
  -- the thresholds, its severity is the right one, and it names the rover and its mountpoint.
  pub rover_alerts-IsFounded :
      (mp : String) (thr : Thresholds F) (r : Sample F)
      → All (IsFounded mp thr r) (rover_alerts F mp thr r)
  unfolding rover_alerts
  rover_alerts-IsFounded mp thr r =
      let P : Alert → Type 0 = IsFounded mp thr r in
      All-append P _ _ (alert_if-All P _ _ (λ e. founded mp thr r nmea_stale info (stale e))) (
        All-append P _ _ (alert_if-All P _ _ (λ e. unfixed_alert mp thr r (has_few F r.gga) e refl))
          (All-append P _ _ (alert_if-All P _ _ (λ e. founded mp thr r nsat_low info (few e))) (
            All-append P _ _ (alert_if-All P _ _ (λ e. founded mp thr r snr_low info (weak e))) (
              All-append P _ _
                (alert_if-All P _ _ (λ e. founded mp thr r geofence_violation warning (outside e)))
                (All-append P _ _
                  (alert_if-All P _ _ (λ e. founded mp thr r jamming_suspect warning (jammed e)))
                  (All-append P _ _
                    (alert_if-All P _ _
                      (λ e. founded mp thr r spoofing_suspect warning (spoofed e)))
                    (alert_if-All P _ _ (λ e.
                      let (both, low) = both_true _ _ e in
                      let (u, f) = both_true _ _ both in
                      founded mp thr r antenna_or_rf_suspect warning (antenna u f low)))))))))

  -- The alerts on some snapshots and then on others are those on all of them.
  pub compute_alerts-append :
      (thr : Thresholds F) (xs ys : List (Snapshot F))
      → compute_alerts F thr (xs ++ ys) ≡ compute_alerts F thr xs ++ compute_alerts F thr ys
  unfolding compute_alerts
  compute_alerts-append thr [] ys = refl
  compute_alerts-append thr (x ∷ xs) ys = elim (Bool-cases (string_eq.beq x.mountpoint "")) [
    | inl nameless ↦ rw nameless (compute_alerts-append thr xs ys)
    | inr named ↦
        rw (named, compute_alerts-append thr xs ys)
          (sym (
            append_assoc (snapshot_alerts F thr x) (compute_alerts F thr xs)
              (compute_alerts F thr ys)))
  ]

  -- A mountpoint with a source, frames that are not old, a known station and no rovers raises
  -- no alert; and without a source it raises a critical one first.
  pub snapshot_alerts-base :
      (thr : Thresholds F) (x : Snapshot F)
      → is_over F x.rtcm_age (threshold F (merge F thr x.diagnostics_cfg).rtcm_stale_s 5) ≡ false
      → x.has_descriptor ≡ true
      → x.rover_samples ≡ []
      → snapshot_alerts F thr x
        ≡ (if x.source_attached then [] else base_alert F x.mountpoint no_source critical ∷ [])
  unfolding snapshot_alerts alert_if all_rover_alerts
  snapshot_alerts-base thr x fresh known alone = ground (arith, fresh, known, alone)
