-- ===== src/Caster/Reading/Turns.antt =====
-- `_rover_read_loop` of src/caster.py. A line comes with the readings of the clock that are
-- taken while it is handled, by their number.
use babilcors.Prelude.{ℕ, not, Option, none, some, List, [], ◌∷◌, if◌then◌else◌}
use babilcors.Prelude.Dict.{string_eq}
use babilcors.Rtcm.Messages.{strip}
use babilcors.Net.{starts_with, read_line}
use babilcors.Text.{has_word}
use babilcors.Nmea.{Zda, parse_gsv, parse_zda}
use babilcors.Nmea.Sentences.{Gsa, Rmc, Vtg, parse_gga, parse_gsa, parse_rmc, parse_vtg}
use babilcors.Geodesy.{Maths}
use babilcors.Caster.Reading.{
  Rover, Clock, go_on, device, with_effects, Config, quality, upsert, continues, ends, crashes,
  Turn,
}
use babilcors.Caster.Reading.Position.{on_gga}
use babilcors.Caster.Reading.Signal.{on_gsv}

module _ (M : Maths) where
  unfoldable pub on_rmc : Clock M → Rover M → Option (Rmc M.numbers) → Turn M
  on_rmc now s none = go_on M s []
  on_rmc now s (some r) = go_on M (record s { last_nmea_ts = now 0; last_rmc = some r }) []

  unfoldable pub on_vtg : Clock M → Rover M → Option (Vtg M.numbers) → Turn M
  on_vtg now s none = go_on M s []
  on_vtg now s (some v) = go_on M (record s { last_nmea_ts = now 0; last_vtg = some v }) []

  unfoldable pub on_zda : Clock M → Rover M → Option Zda → Turn M
  on_zda now s none = go_on M s []
  on_zda now s (some z) = go_on M (record s { last_nmea_ts = now 0; last_zda = some z }) []

  unfoldable pub on_gsa : Clock M → Rover M → Option (Gsa M.numbers) → Turn M
  on_gsa now s none = go_on M s []
  on_gsa now s (some g) =
      go_on M (record s { last_nmea_ts = now 0; last_gsa = some g })
        (upsert (device M s) (quality g) ∷ [])

  -- The kind of a line by the first of the words that it holds.
  unfoldable pub on_text : Config M → Clock M → Rover M → List ℕ → Turn M
  on_text c now s line =
      if not (starts_with (b'$' ∷ []) line)
      then go_on M s []
      else if has_word (b'R' ∷ b'M' ∷ b'C' ∷ []) line
      then on_rmc now s (parse_rmc M.numbers line)
      else if has_word (b'V' ∷ b'T' ∷ b'G' ∷ []) line
      then on_vtg now s (parse_vtg M.numbers line)
      else if has_word (b'Z' ∷ b'D' ∷ b'A' ∷ []) line
      then on_zda now s (parse_zda line)
      else if has_word (b'G' ∷ b'G' ∷ b'A' ∷ []) line
      then on_gga M c now s (parse_gga M.numbers line)
      else if has_word (b'G' ∷ b'S' ∷ b'A' ∷ []) line
      then on_gsa now s (parse_gsa M.numbers line)
      else if has_word (b'G' ∷ b'S' ∷ b'V' ∷ []) line
      then on_gsv M c now s (parse_gsv line)
      else go_on M s []

  unfoldable pub on_line : Config M → Clock M → Rover M → Option (List ℕ) → Turn M
  on_line c now s none = record { rover = s; effects = []; outcome = ends }
  on_line c now s (some line) = on_text c now s (strip line)

  -- The loop over what `readline` gives, `none` for a timeout.
  unfoldable pub read_loop : Config M → List (Option (List ℕ) × Clock M) → Rover M → Turn M
  read_loop c [] s = go_on M s []
  read_loop c ((l, now) ∷ ls) s =
      let t = on_line c now s (read_line 1024 l) in
      let later = read_loop c ls t.rover in
      elim t.outcome [ continues ↦ with_effects M t.effects later | ends ↦ t | crashes ↦ t ]
