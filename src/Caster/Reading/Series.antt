-- ===== src/Caster/Reading/Series.antt =====
-- Series of GSV sentences in `_rover_read_loop` of src/caster.py.
use babilcors.Prelude.{
  ℕ, suc, ◌≤◌, ◌<◌, ◌≡◌, refl, sym, ap, subst, ◌∙◌, ◌⊎◌, inl, inr, true, false, Option, none, some,
  List, [], ◌∷◌, ◌++◌, append_assoc, append-nil, ◌==◌, arith, Bool-cases,
}
use babilcors.Prelude.Int.{ℤ, pos, negsuc}
use babilcors.Nmea.{Satellite, Gsv}
use babilcors.Geodesy.{Maths}
use babilcors.Caster.Reading.{Float, Rover, Config, Turn, Clock}
use babilcors.Caster.Reading.Signal.{
  on_gsv, snrs, mean, starts_series, extend_series, finish_series, judge, eq_ℤ,
}

abbrev pub all_sats {ℓ} : {C : Type ℓ} → List (Gsv × C) → List Satellite
all_sats [] = []
all_sats ((g, now) ∷ gs) = g.sats ++ all_sats gs

-- The sentences are those with the numbers from `k` to `n`, of a series of `n`.
abbrev pub IsSeries {ℓ} : {C : Type ℓ} → ℕ → ℕ → List (Gsv × C) → Type 0
IsSeries n k [] = k ≡ suc n
IsSeries n k ((g, now) ∷ gs) = (g.total_sent ≡ pos n) × (g.sent_num ≡ pos k) × IsSeries n (suc k) gs

IsSeries-le {ℓ} : {C : Type ℓ} (n k : ℕ) (gs : List (Gsv × C)) → IsSeries n k gs → k ≤ suc n
IsSeries-le n k [] h = omega arith
IsSeries-le n k ((g, now) ∷ gs) (t, m, h) = omega (arith, IsSeries-le n (suc k) gs h)

is_last :
    (g : Gsv) (n : ℕ)
    → g.total_sent ≡ pos n
    → g.sent_num ≡ pos n
    → eq_ℤ g.sent_num g.total_sent ≡ true
unfolding eq_ℤ
is_last g n ht hk = rw (ht, hk) (ground arith)

pub eq_ℤ_sound : (a b : ℤ) → eq_ℤ a b ≡ true → a ≡ b
unfolding eq_ℤ
eq_ℤ_sound (pos a) (pos b) e = ground (arith, e)
eq_ℤ_sound (negsuc a) (negsuc b) e = ground (arith, e)
eq_ℤ_sound (pos a) (negsuc b) e = cc
eq_ℤ_sound (negsuc a) (pos b) e = cc

pub eq_ℤ_refl : (a : ℤ) → eq_ℤ a a ≡ true
unfolding eq_ℤ
eq_ℤ_refl (pos a) = ground arith
eq_ℤ_refl (negsuc a) = ground arith

starts_at_1 :
    (g : Gsv) (total : ℤ) (k : ℕ) → g.sent_num ≡ pos k → k ≡ 1 → starts_series g total ≡ true
unfolding starts_series eq_ℤ
starts_at_1 g total k hk first = rw (hk, first) (ground arith)

goes_on :
    (g : Gsv) (total : ℤ) (n k : ℕ)
    → g.total_sent ≡ pos n
    → g.sent_num ≡ pos k
    → 1 < k
    → total ≡ pos n
    → starts_series g total ≡ false
unfolding starts_series eq_ℤ
goes_on g total n k ht hk later h = rw (ht, hk, h) (ground (arith, later))

module _ (M : Maths) where
  -- The sentences one after the other.
  pub run_series : Config M → List (Gsv × Clock M) → Rover M → Rover M
  run_series c [] s = s
  run_series c ((g, now) ∷ gs) s = run_series c gs (on_gsv M c now s (some g)).rover

  -- A series is under way: its length and what has come so far.
  record HasSoFar (n : ℕ) (sats : List Satellite) (s : Rover M) : Type 0 where
    total : s.pending_total ≡ pos n
    so_far : s.pending_sats ≡ some sats

  judge-mean :
      (c : Config M) (now : Clock M) (snr : Float M) (total : ℤ) (s : Rover M)
      (low : Option (Float M))
      → (judge M c now snr total s low).rover.last_gsv_snr_mean ≡ s.last_gsv_snr_mean
  unfolding judge
  judge-mean c now snr total s none = refl
  judge-mean c now snr total s (some low) = refl

  extend-more :
      (c : Config M) (now : Clock M) (g : Gsv) (s : Rover M) (sats : List Satellite) (n k : ℕ)
      → g.total_sent ≡ pos n
      → g.sent_num ≡ pos k
      → k < n
      → s.pending_total ≡ pos n
      → HasSoFar n (sats ++ g.sats) (extend_series M c now g s (some sats)).rover
  unfolding extend_series eq_ℤ
  extend-more c now g s sats n k ht hk less hs =
      rw (hk, ht) (record { total = ground (arith, hs); so_far = ground arith })

  extend-last :
      (c : Config M) (now : Clock M) (g : Gsv) (s : Rover M) (sats : List Satellite) (n : ℕ)
      → g.total_sent ≡ pos n
      → g.sent_num ≡ pos n
      → (extend_series M c now g s (some sats)).rover.last_gsv_snr_mean
        ≡ some (mean M (snrs (sats ++ g.sats)))
  unfolding extend_series finish_series
  extend-last c now g s sats n ht hk =
      rw (is_last g n ht hk)
        (judge-mean c now (mean M (snrs (sats ++ g.sats))) g.total_sv _ c.snr_low)

  -- The first sentence, or a later one of the series under way.
  Goes : ℕ → ℕ → List Satellite → Rover M → Type 0
  Goes n k sats s = ((k ≡ 1) × (sats ≡ [])) ⊎ ((1 < k) × HasSoFar n sats s)

  on_gsv-extends :
      (c : Config M) (now : Clock M) (g : Gsv) (s : Rover M) (sats : List Satellite) (n k : ℕ)
      → g.total_sent ≡ pos n
      → g.sent_num ≡ pos k
      → Goes n k sats s
      → (r : Rover M) × (r.pending_total ≡ pos n)
        × (on_gsv M c now s (some g) ≡ extend_series M c now g r (some sats))
  unfolding on_gsv Goes
  on_gsv-extends c now g s sats n k ht hk (inl (first, empty)) =
      let e : starts_series g s.pending_total ≡ true = starts_at_1 g s.pending_total k hk first in
      (record s { pending_total = g.total_sent; last_nmea_ts = now 0 }, ht, rw (e, empty))
  on_gsv-extends c now g s sats n k ht hk (inr (later, h)) =
      let e : starts_series g s.pending_total ≡ false =
        goes_on g s.pending_total n k ht hk later h.total in
      (record s { last_nmea_ts = now 0 }, h.total, rw (e, h.so_far))

  run_series-mean :
      (c : Config M) (gs : List (Gsv × Clock M)) (s : Rover M) (sats : List Satellite) (n k : ℕ)
      → IsSeries n k gs
      → k ≤ n
      → Goes n k sats s
      → (run_series c gs s).last_gsv_snr_mean ≡ some (mean M (snrs (sats ++ all_sats gs)))
  unfolding run_series Goes
  run_series-mean c [] s sats n k h le goes = absurd (omega (arith, h))
  run_series-mean c ((g, now) ∷ gs) s sats n k (ht, hk, h) le goes =
      let (r, total, same) = on_gsv-extends c now g s sats n k ht hk goes in
      elim (Bool-cases (k == n)) [
        | inl last ↦ ended gs (on_gsv M c now s (some g)).rover sats g h (ground (arith, last)) (
            ap (λ (t : Turn M). t.rover.last_gsv_snr_mean) same
            ∙ extend-last c now g r sats n ht (hk ∙ ap pos (ground (arith, last))))
        | inr more ↦
            let less : k < n = ground (arith, more, le) in
            run_series-mean c gs (on_gsv M c now s (some g)).rover (sats ++ g.sats) n (suc k) h less
              (inr (
                omega arith,
                subst (λ (t : Turn M). HasSoFar n (sats ++ g.sats) t.rover) (sym same)
                    (extend-more c now g r sats n k ht hk less total),
              ))
            ∙ ap (λ l. some (mean M (snrs l))) (append_assoc sats g.sats (all_sats gs))
      ]
    where
      ended :
          (gs : List (Gsv × Clock M)) (r : Rover M) (sats : List Satellite) (g : Gsv)
          → IsSeries n (suc k) gs
          → k ≡ n
          → r.last_gsv_snr_mean ≡ some (mean M (snrs (sats ++ g.sats)))
          → (run_series c gs r).last_gsv_snr_mean
            ≡ some (mean M (snrs (sats ++ (g.sats ++ all_sats gs))))
      ended [] r sats g h e m =
          m ∙ ap (λ l. some (mean M (snrs (sats ++ l)))) (sym (append-nil g.sats))
      ended ((g', now') ∷ gs) r sats g (_, _, h) e m =
          absurd (omega (arith, IsSeries-le n (suc (suc k)) gs h))

  -- When the sentences of a series have come one after the other, whatever has come before, the
  -- rover's mean SNR is that of the positive SNRs of all the satellites in all the sentences.
  pub run_series-whole :
      (c : Config M) (gs : List (Gsv × Clock M)) (s : Rover M) (n : ℕ)
      → 1 ≤ n
      → IsSeries n 1 gs
      → (run_series c gs s).last_gsv_snr_mean ≡ some (mean M (snrs (all_sats gs)))
  unfolding Goes
  run_series-whole c gs s n some_ h = run_series-mean c gs s [] n 1 h some_ (inl (refl, refl))
