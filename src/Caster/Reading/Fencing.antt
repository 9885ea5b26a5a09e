-- ===== src/Caster/Reading/Fencing.antt =====
-- Geofences in `_rover_read_loop` of src/caster.py.
use babilcors.Prelude.{
  ℕ, ◌≡◌, refl, sym, subst, ◌∙◌, ◌⊎◌, inl, inr, Bool, true, false, Option, none, some,
  some-injective, List, [], Bool-cases,
}
use babilcors.Prelude.Int.{ℤ}
use babilcors.Nmea.{Satellite, Gsv, Zda}
use babilcors.Nmea.Sentences.{Gga, Gsa, Rmc, Vtg}
use babilcors.Geofence.{Point}
use babilcors.Geodesy.{Maths}
use babilcors.Caster.Reading.{
  Float, Rover, Fence, Entry, null, blank, other, fence, Config, Outcome, continues, ends, crashes,
  Turn, Clock,
}
use babilcors.Caster.Reading.Turns.{on_rmc, on_vtg, on_zda, on_gsa, on_line, read_loop}
use babilcors.Caster.Reading.Position.{
  on_gga, after_jump, jumped, is_block, is_outside, violate, check_mode, check_polygon, check_fence,
  entry_for,
}
use babilcors.Caster.Reading.Signal.{
  on_gsv, starts_series, extend_series, finish_series, judge, eq_ℤ,
}
use babilcors.Caster.Reading.Loop.{branch, read_loop-keeps, on_line-keeps}

module _ (M : Maths) where
  -- The entry is a fence in the mode `block` that the position lies outside of.
  pub record IsBarred (e : Entry M) (g : Gga M.numbers) : Type 0 where
    pub f : Fence M
    pub mode : List ℕ
    pub poly : List (Point M.numbers.floats)
    pub is_fence : e ≡ fence f
    pub has_polygon : f.polygon ≡ some poly
    pub has_mode : f.mode ≡ some mode
    pub blocks : is_block mode ≡ true
    pub outside : is_outside M poly g ≡ true

  -- The rover's last position is not barred.
  abbrev pub Permitted : Config M → Rover M → Type 0
  Permitted c s =
      (g : Gga M.numbers)
      → s.last_gga ≡ some g
      → ¬ IsBarred (entry_for M c s.username s.mountpoint) g

  abbrev pub Verdict : Config M → Rover M → Outcome → Type 0
  Verdict c s continues = (s.is_closing ≡ false) × Permitted c s
  Verdict c s ends =
      ((s.is_closing ≡ false) × Permitted c s)
      ⊎ ((s.is_closing ≡ true)
          × (g : Gga M.numbers) × (s.last_gga ≡ some g)
          × IsBarred (entry_for M c s.username s.mountpoint) g)
  Verdict c s crashes = s.is_closing ≡ false

  judge-Verdict :
      (c : Config M) (now : Clock M) (snr : Float M) (total : ℤ) (s : Rover M)
      (low : Option (Float M))
      → Verdict c s continues
      → Verdict c (judge M c now snr total s low).rover (judge M c now snr total s low).outcome
  unfolding judge
  judge-Verdict c now snr total s none h = h.0
  judge-Verdict c now snr total s (some low) h = h

  extend_series-Verdict :
      (c : Config M) (now : Clock M) (g : Gsv) (s : Rover M) (p : Option (List Satellite))
      → Verdict c s continues
      → Verdict c (extend_series M c now g s p).rover (extend_series M c now g s p).outcome
  unfolding extend_series finish_series
  extend_series-Verdict c now g s none h = h.0
  extend_series-Verdict c now g s (some sats) h =
      branch (λ (t : Turn M). Verdict c t.rover t.outcome) (eq_ℤ g.sent_num g.total_sent) _ _
        (judge-Verdict c now _ g.total_sv _ c.snr_low h) h

  on_gsv-Verdict :
      (c : Config M) (now : Clock M) (s : Rover M) (g : Option Gsv)
      → Verdict c s continues
      → Verdict c (on_gsv M c now s g).rover (on_gsv M c now s g).outcome
  unfolding on_gsv
  on_gsv-Verdict c now s none h = h
  on_gsv-Verdict c now s (some g) h =
      branch (λ (t : Turn M). Verdict c t.rover t.outcome) (starts_series g s.pending_total) _ _
        (extend_series-Verdict c now g _ (some []) h)
        (extend_series-Verdict c now g _ s.pending_sats h)

  -- What a check by this entry comes to.
  abbrev Checked : Entry M → Gga M.numbers → Turn M → Type 0
  Checked e g t =
      ((t.outcome ≡ continues) × (t.rover.is_closing ≡ false) × ¬ IsBarred e g)
      ⊎ ((t.outcome ≡ ends) × (t.rover.is_closing ≡ true) × IsBarred e g)

  check_mode-Checked :
      (now : Clock M) (g : Gga M.numbers) (s : Rover M) (f : Fence M)
      (poly : List (Point M.numbers.floats)) (mode : Option (List ℕ))
      → s.is_closing ≡ false
      → f.polygon ≡ some poly
      → f.mode ≡ mode
      → Checked (fence f) g (check_mode M now g s mode poly)
  unfolding check_mode
  check_mode-Checked now g s f poly none open_ hp hm =
      inl (refl, open_, λ b. cc (b.is_fence, b.has_mode))
  check_mode-Checked now g s f poly (some mode) open_ hp hm =
      elim (Bool-cases (is_outside M poly g)) [
        | inr inside ↦ rw inside (inl (refl, open_, λ b. cc (b.is_fence, b.has_polygon, b.outside)))
        | inl out ↦ rw out (elim (Bool-cases (is_block mode)) [
          | inl blocks ↦
              unfold violate in
              rw blocks (
                inr (
                  refl,
                  refl,
                  record {
                    f = f;
                    mode = mode;
                    poly = poly;
                    is_fence = refl;
                    has_polygon = hp;
                    has_mode = hm;
                    blocks = blocks;
                    outside = out;
                  },
                ))
          | inr alerts ↦
              unfold violate in
              rw alerts (inl (refl, open_, λ b. cc (b.is_fence, b.has_mode, b.blocks)))
        ])
      ]

  check_polygon-Checked :
      (now : Clock M) (g : Gga M.numbers) (s : Rover M) (f : Fence M)
      (poly : Option (List (Point M.numbers.floats)))
      → s.is_closing ≡ false
      → f.polygon ≡ poly
      → Checked (fence f) g (check_polygon M now g s f.mode poly)
  unfolding check_polygon
  check_polygon-Checked now g s f none open_ hp =
      inl (refl, open_, λ b. cc (b.is_fence, b.has_polygon))
  check_polygon-Checked now g s f (some poly) open_ hp =
      check_mode-Checked now g s f poly f.mode open_ hp refl

  check_fence-Checked :
      (now : Clock M) (g : Gga M.numbers) (s : Rover M) (e : Entry M)
      → s.is_closing ≡ false
      → Checked e g (check_fence M now g s e)
  unfolding check_fence
  check_fence-Checked now g s (fence f) open_ = check_polygon-Checked now g s f f.polygon open_ refl
  check_fence-Checked now g s null open_ = inl (refl, open_, λ b. cc (b.is_fence))
  check_fence-Checked now g s blank open_ = inl (refl, open_, λ b. cc (b.is_fence))
  check_fence-Checked now g s other open_ = inl (refl, open_, λ b. cc (b.is_fence))

  Checked-Verdict :
      (c : Config M) (g : Gga M.numbers) (t : Turn M)
      → t.rover.last_gga ≡ some g
      → Checked (entry_for M c t.rover.username t.rover.mountpoint) g t
      → Verdict c t.rover t.outcome
  Checked-Verdict c g t last (inl (e, open_, free)) = subst (Verdict c t.rover) (sym e) (
    open_,
    λ g' same.
        subst (λ x. ¬ IsBarred (entry_for M c t.rover.username t.rover.mountpoint) x)
          (some-injective g g' (sym last ∙ same)) free,
  )
  Checked-Verdict c g t last (inr (e, hung_up, barred)) =
      subst (Verdict c t.rover) (sym e) (inr (hung_up, g, last, barred))

  -- The rover is the same one, at the same position.
  abbrev SamePlace : Rover M → Rover M → Type 0
  SamePlace s r =
      (r.last_gga ≡ s.last_gga) × (r.username ≡ s.username) × (r.mountpoint ≡ s.mountpoint)

  check_fence-SamePlace :
      (now : Clock M) (g : Gga M.numbers) (s : Rover M) (e : Entry M)
      → SamePlace s (check_fence M now g s e).rover
  unfolding check_fence check_polygon check_mode violate
  check_fence-SamePlace now g s null = (refl, refl, refl)
  check_fence-SamePlace now g s blank = (refl, refl, refl)
  check_fence-SamePlace now g s other = (refl, refl, refl)
  check_fence-SamePlace now g s (fence f) = polygon f.polygon f.mode
    where
      polygon :
          (p : Option (List (Point M.numbers.floats))) (m : Option (List ℕ))
          → SamePlace s (check_polygon M now g s m p).rover
      polygon none m = (refl, refl, refl)
      polygon (some p) none = (refl, refl, refl)
      polygon (some p) (some m) =
          branch (λ (t : Turn M). SamePlace s t.rover) (is_outside M p g) _ _
            (branch (λ (t : Turn M). SamePlace s t.rover) (is_block m) _ _ (refl, refl, refl)
              (refl, refl, refl))
            (refl, refl, refl)

  after_jump-SamePlace :
      (now : Clock M) (g : Gga M.numbers) (s : Rover M) (jump : Option Bool)
      → SamePlace s (after_jump M now g s jump)
        × ((after_jump M now g s jump).is_closing ≡ s.is_closing)
  unfolding after_jump
  after_jump-SamePlace now g s none = ((refl, refl, refl), refl)
  after_jump-SamePlace now g s (some suspect) = ((refl, refl, refl), refl)

  fenced-Verdict :
      (c : Config M) (now : Clock M) (g : Gga M.numbers) (s r : Rover M)
      → SamePlace s r
      → s.last_gga ≡ some g
      → r.is_closing ≡ false
      → Verdict c
          (check_fence M now g r (entry_for M c s.username s.mountpoint)).rover
          (check_fence M now g r (entry_for M c s.username s.mountpoint)).outcome
  fenced-Verdict c now g s r (same, name, mp) last open_ =
      let e = entry_for M c s.username s.mountpoint in
      let t = check_fence M now g r e in
      let (same', name', mp') = check_fence-SamePlace now g r e in
      Checked-Verdict c g t (same' ∙ same ∙ last) (
        subst (λ n. Checked (entry_for M c n t.rover.mountpoint) g t) (sym (name' ∙ name))
          (subst (λ m. Checked (entry_for M c s.username m) g t) (sym (mp' ∙ mp))
            (check_fence-Checked now g r e open_)))

  on_gga-Verdict :
      (c : Config M) (now : Clock M) (s : Rover M) (g : Option (Gga M.numbers))
      → Verdict c s continues
      → Verdict c (on_gga M c now s g).rover (on_gga M c now s g).outcome
  unfolding on_gga
  on_gga-Verdict c now s none h = h
  on_gga-Verdict c now s (some g) h =
      let jump = jumped M c (now 1) s.last_lat s.last_lon s.last_pos_ts g in
      let s' = record s { last_nmea_ts = now 0; last_gga = some g } in
      let (same, closing) = after_jump-SamePlace now g s' jump in
      fenced-Verdict c now g s' (after_jump M now g s' jump) same refl (closing ∙ h.0)

  on_line-Verdict :
      (c : Config M) (now : Clock M) (l : Option (List ℕ)) (s : Rover M)
      → Verdict c s continues
      → Verdict c (on_line M c now s l).rover (on_line M c now s l).outcome
  unfolding on_rmc on_vtg on_zda on_gsa
  on_line-Verdict c now l s h =
      on_line-keeps M (Verdict c) c now s (inl h)
        (record {
          passed = h;
          rmc = λ r. on_rmc-Verdict r;
          vtg = λ v. on_vtg-Verdict v;
          zda = λ z. on_zda-Verdict z;
          gga = λ g. on_gga-Verdict c now s g h;
          gsa = λ g. on_gsa-Verdict g;
          gsv = λ g. on_gsv-Verdict c now s g h;
        })
        l
    where
      on_rmc-Verdict :
          (r : Option (Rmc M.numbers))
          → Verdict c (on_rmc M now s r).rover (on_rmc M now s r).outcome
      on_rmc-Verdict none = h
      on_rmc-Verdict (some r) = h

      on_vtg-Verdict :
          (v : Option (Vtg M.numbers))
          → Verdict c (on_vtg M now s v).rover (on_vtg M now s v).outcome
      on_vtg-Verdict none = h
      on_vtg-Verdict (some v) = h

      on_zda-Verdict :
          (z : Option Zda) → Verdict c (on_zda M now s z).rover (on_zda M now s z).outcome
      on_zda-Verdict none = h
      on_zda-Verdict (some z) = h

      on_gsa-Verdict :
          (g : Option (Gsa M.numbers))
          → Verdict c (on_gsa M now s g).rover (on_gsa M now s g).outcome
      on_gsa-Verdict none = h
      on_gsa-Verdict (some g) = h

  -- Of a rover that is not hung up on, and whose last position is not barred: after any lines,
  -- while the loop goes on, the rover is not hung up on and its last position is not barred; when
  -- the loop returns, either that is so still, or it has hung up and the last position is barred;
  -- and an exception hangs up on nobody. Barred is a position outside the rover's fence, if that
  -- is to block.
  pub read_loop-Verdict :
      (c : Config M) (ls : List (Option (List ℕ) × Clock M)) (s : Rover M)
      → Verdict c s continues
      → Verdict c (read_loop M c ls s).rover (read_loop M c ls s).outcome
  read_loop-Verdict c = read_loop-keeps M (Verdict c) c (on_line-Verdict c)
