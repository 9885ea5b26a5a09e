-- ===== src/Caster/Reading/Signal.antt =====
-- GSV in `_rover_read_loop` of src/caster.py: series of sentences, weak signals and jamming.
use babilcors.Prelude.{
  ℕ, Bool, true, false, not, ◌&&◌, ◌||◌, Option, none, some, List, [], ◌∷◌, ◌++◌, ◌==◌, ltb, length,
  sum, if◌then◌else◌, or_else, ◌>>=◌,
}
use babilcors.Prelude.Int.{ℤ, pos, negsuc, pos_part, ltb_ℤ}
use babilcors.Prelude.Dict.{string_eq}
use babilcors.Nmea.{Satellite, Gsv, is_zero}
use babilcors.Nmea.Sentences.{Gga}
use babilcors.Geodesy.{Maths}
use babilcors.Caster.Reading.{
  Float, Rover, Clock, go_on, device, Config, signal, Effect, event, upsert, crashes, Turn,
}

-- Equality of integers.
unfoldable pub eq_ℤ : ℤ → ℤ → Bool
eq_ℤ (pos a) (pos b) = a == b
eq_ℤ (negsuc a) (negsuc b) = a == b
eq_ℤ (pos a) (negsuc b) = false
eq_ℤ (negsuc a) (pos b) = false

-- The SNRs that are greater than 0.
unfoldable pub snrs : List Satellite → List ℕ
snrs [] = []
snrs (s ∷ rest) =
    let later = snrs rest in if ltb 0 (pos_part s.snr) then pos_part s.snr ∷ later else later

unfoldable pub starts_series : Gsv → ℤ → Bool
starts_series g total = eq_ℤ g.sent_num (pos 1) || not (eq_ℤ total g.total_sent)

module _ (M : Maths) where
  -- The mean of the SNRs that are greater than 0, and 0.0 if there is none.
  unfoldable pub mean : List ℕ → Float M
  mean [] = M.numbers.of_int (pos 0)
  mean (x ∷ xs) =
      M.numbers.floats.div (M.numbers.of_int (pos (sum (x ∷ xs))))
        (M.numbers.of_int (pos (length (x ∷ xs))))

  -- Weak signals, few satellites and a bad geometry at once; an exception counts as none.
  unfoldable pub is_jammed : Config M → Float M → Option (Gga M.numbers) → Bool
  is_jammed c snr none = false
  is_jammed c snr (some g) =
      or_else
        (c.jamming_snr >>= λ weak. c.jamming_nsat >>= λ few. c.jamming_hdop >>= λ bad.
          some (
            M.numbers.floats.less snr weak && ltb_ℤ g.nsat few && M.numbers.floats.less bad g.hdop))
        false

  unfoldable pub jamming_events : Option (Gga M.numbers) → Bool → List (Effect M)
  jamming_events none jammed = []
  jamming_events (some g) false = []
  jamming_events (some g) true =
      event "JAMMING_SUSPECT" (if is_zero g.fix_q then "warning" else "info") 30 ∷ []

  -- What follows the threshold for a weak signal.
  unfoldable pub judge : Config M → Clock M → Float M → ℤ → Rover M → Option (Float M) → Turn M
  judge c now snr total_sv s none = record { rover = s; effects = []; outcome = crashes }
  judge c now snr total_sv s (some low) =
      let jammed = is_jammed c snr s.last_gga in
      go_on M (record s { jamming_suspect_ts = if jammed then now 1 else s.jamming_suspect_ts })
        ((if M.numbers.floats.less snr low then event "SNR_LOW" "info" 10 ∷ [] else [])
          ++ jamming_events s.last_gga jammed
          ++ upsert (device M s) (signal total_sv snr) ∷ [])

  -- The last sentence of a series.
  unfoldable pub finish_series : Config M → Clock M → List Satellite → ℤ → Rover M → Turn M
  finish_series c now sats total_sv s =
      let snr = mean (snrs sats) in
      let s' = record s { last_gsv_snr_mean = some snr; last_gsv_total_sv = some total_sv } in
      judge c now snr total_sv s' c.snr_low

  -- `None.extend` raises an exception.
  unfoldable pub extend_series :
      Config M → Clock M → Gsv → Rover M → Option (List Satellite) → Turn M
  extend_series c now g s none = record {
    rover = record s { pending_last_num = g.sent_num };
    effects = [];
    outcome = crashes;
  }
  extend_series c now g s (some sats) =
      let s' = record s { pending_last_num = g.sent_num; pending_sats = some (sats ++ g.sats) } in
      if eq_ℤ g.sent_num g.total_sent
      then finish_series c now (sats ++ g.sats) g.total_sv s'
      else go_on M s' []

  unfoldable pub on_gsv : Config M → Clock M → Rover M → Option Gsv → Turn M
  on_gsv c now s none = go_on M s []
  on_gsv c now s (some g) =
      let s' = record s { last_nmea_ts = now 0 } in
      if starts_series g s.pending_total
      then extend_series c now g (record s' { pending_total = g.total_sent }) (some [])
      else extend_series c now g s' s.pending_sats
