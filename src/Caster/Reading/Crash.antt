-- ===== src/Caster/Reading/Crash.antt =====
-- The exception that a GSV sentence can raise in `_rover_read_loop` of src/caster.py.
use babilcors.Prelude.{
  ℕ, ◌≡◌, ◌≢◌, refl, inl, inr, Bool, false, Option, none, some, List, [], Bool-cases,
}
use babilcors.Prelude.Int.{ℤ, pos}
use babilcors.Nmea.{Satellite, Gsv}
use babilcors.Nmea.Sentences.{Gga}
use babilcors.Geodesy.{Maths}
use babilcors.Caster.Reading.{
  Float, Rover, Entry, null, blank, other, fence, Config, Outcome, continues, ends, crashes, Turn,
  Clock,
}
use babilcors.Caster.Reading.Turns.{on_rmc, on_vtg, on_zda, on_gsa, on_line, read_loop}
use babilcors.Caster.Reading.Position.{
  on_gga, after_jump, jumped, is_outside, is_block, violate, check_mode, check_polygon, check_fence,
  entry_for,
}
use babilcors.Caster.Reading.Signal.{
  on_gsv, starts_series, extend_series, finish_series, judge, eq_ℤ,
}
use babilcors.Caster.Reading.Loop.{branch, read_loop-keeps, on_line-keeps}
use babilcors.Caster.Reading.Series.{eq_ℤ_sound, eq_ℤ_refl}

starts_series-no :
    (g : Gsv) (total : ℤ)
    → total ≡ g.total_sent
    → g.sent_num ≢ pos 1
    → starts_series g total ≡ false
unfolding starts_series
starts_series-no g total same later = elim (Bool-cases (eq_ℤ g.sent_num (pos 1))) [
  | inl e ↦ absurd (later (eq_ℤ_sound g.sent_num (pos 1) e))
  | inr e ↦ rw (e, same, eq_ℤ_refl g.total_sent)
]

module _ (M : Maths) where
  -- If no series has begun, a GSV sentence that is not number 1, and whose total is the pending
  -- one (0 in a fresh session), ends the loop with an exception.
  pub on_gsv-crashes :
      (c : Config M) (now : Clock M) (s : Rover M) (g : Gsv)
      → s.pending_sats ≡ none
      → s.pending_total ≡ g.total_sent
      → g.sent_num ≢ pos 1
      → (on_gsv M c now s (some g)).outcome ≡ crashes
  unfolding on_gsv extend_series
  on_gsv-crashes c now s g unset same later =
      rw (starts_series-no g s.pending_total same later, unset)

  abbrev Begun : Rover M → Outcome → Type 0
  Begun s continues = (sats : List Satellite) × (s.pending_sats ≡ some sats)
  Begun s ends = Unit {0}
  Begun s crashes = ⊥

  check_fence-Begun :
      (now : Clock M) (g : Gga M.numbers) (s : Rover M) (e : Entry M)
      → Begun s continues
      → Begun (check_fence M now g s e).rover (check_fence M now g s e).outcome
  unfolding check_fence check_polygon check_mode violate
  check_fence-Begun now g s null h = h
  check_fence-Begun now g s blank h = h
  check_fence-Begun now g s other h = h
  check_fence-Begun now g s (fence f) h = polygon f.polygon f.mode
    where
      polygon :
          (p : Option (List _)) (m : Option (List ℕ))
          → Begun (check_polygon M now g s m p).rover (check_polygon M now g s m p).outcome
      polygon none m = h
      polygon (some p) none = h
      polygon (some p) (some m) =
          branch (λ (t : Turn M). Begun t.rover t.outcome) (is_outside M p g) _ _
            (branch (λ (t : Turn M). Begun t.rover t.outcome) (is_block m) _ _ tt h) h

  after_jump-Begun :
      (now : Clock M) (g : Gga M.numbers) (s : Rover M) (jump : Option Bool)
      → Begun s continues
      → Begun (after_jump M now g s jump) continues
  unfolding after_jump
  after_jump-Begun now g s none h = h
  after_jump-Begun now g s (some suspect) h = h

  module _ (c : Config M) (now : Clock M) (low : Float M) (readable : c.snr_low ≡ some low) where
    extend_series-Begun :
        (g : Gsv) (s : Rover M) (sats : List Satellite)
        → Begun
            (extend_series M c now g s (some sats)).rover
            (extend_series M c now g s (some sats)).outcome
    unfolding extend_series finish_series judge
    extend_series-Begun g s sats =
        branch (λ (t : Turn M). Begun t.rover t.outcome) (eq_ℤ g.sent_num g.total_sent) _ _
          (rw readable (_, refl)) (_, refl)

    on_gsv-Begun :
        (s : Rover M) (g : Option Gsv)
        → Begun s continues
        → Begun (on_gsv M c now s g).rover (on_gsv M c now s g).outcome
    unfolding on_gsv
    on_gsv-Begun s none h = h
    on_gsv-Begun s (some g) (sats, e) =
        branch (λ (t : Turn M). Begun t.rover t.outcome) (starts_series g s.pending_total) _ _
          (extend_series-Begun g _ []) (rw e (extend_series-Begun g _ sats))

    on_line-Begun :
        (l : Option (List ℕ)) (s : Rover M)
        → Begun s continues
        → Begun (on_line M c now s l).rover (on_line M c now s l).outcome
    unfolding on_rmc on_vtg on_zda on_gsa on_gga
    on_line-Begun l s h =
        on_line-keeps M Begun c now s tt
          (record {
            passed = h;
            rmc = λ r. elim r as (λ o. Begun (on_rmc M now s o).rover (on_rmc M now s o).outcome) [
              | none ↦ h
              | some x ↦ h
            ];
            vtg = λ r. elim r as (λ o. Begun (on_vtg M now s o).rover (on_vtg M now s o).outcome) [
              | none ↦ h
              | some x ↦ h
            ];
            zda = λ r. elim r as (λ o. Begun (on_zda M now s o).rover (on_zda M now s o).outcome) [
              | none ↦ h
              | some x ↦ h
            ];
            gga = λ r.
                elim r as (λ o. Begun (on_gga M c now s o).rover (on_gga M c now s o).outcome) [
                  | none ↦ h
                  | some g ↦ check_fence-Begun now g _ (entry_for M c s.username s.mountpoint) (
                      after_jump-Begun now g (record s { last_nmea_ts = now 0; last_gga = some g })
                        (jumped M c (now 1) s.last_lat s.last_lon s.last_pos_ts g) h)
                ];
            gsa = λ r. elim r as (λ o. Begun (on_gsa M now s o).rover (on_gsa M now s o).outcome) [
              | none ↦ h
              | some x ↦ h
            ];
            gsv = λ g. on_gsv-Begun s g h;
          })
          l

  never : (s : Rover M) (o : Outcome) → Begun s o → o ≢ crashes
  never s continues h e = cc
  never s ends h e = cc
  never s crashes h e = h

  -- Once a series has begun, no line raises an exception, if the threshold for weak signals can
  -- be read.
  pub read_loop-ne-crashes :
      (c : Config M) (low : Float M) (ls : List (Option (List ℕ) × Clock M)) (s : Rover M)
      (sats : List Satellite)
      → c.snr_low ≡ some low
      → s.pending_sats ≡ some sats
      → (read_loop M c ls s).outcome ≢ crashes
  read_loop-ne-crashes c low ls s sats readable begun =
      never (read_loop M c ls s).rover (read_loop M c ls s).outcome (
        read_loop-keeps M Begun c (λ now l r h. on_line-Begun c now low readable l r h) ls s
          (sats, begun))
