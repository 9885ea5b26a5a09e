-- ===== src/Caster/Reading/Loop.antt =====
-- What holds after each line of `_rover_read_loop` of src/caster.py holds after all.
use babilcors.Prelude.{
  ℕ, ◌≡◌, ◌≢◌, refl, sym, subst, ◌⊎◌, inl, inr, Bool, true, false, not, Option, none, some, List,
  [], ◌∷◌, if◌then◌else◌, arith,
}
use babilcors.Rtcm.Messages.{strip}
use babilcors.Net.{starts_with, read_line}
use babilcors.Text.{has_word}
use babilcors.Nmea.{Gsv, Zda, parse_gsv, parse_zda}
use babilcors.Nmea.Sentences.{Gga, Gsa, Rmc, Vtg, parse_gga, parse_gsa, parse_rmc, parse_vtg}
use babilcors.Geodesy.{Maths}
use babilcors.Caster.Reading.{
  Rover, Config, Outcome, continues, ends, crashes, Turn, Clock, go_on, with_effects,
}
use babilcors.Caster.Reading.Turns.{on_rmc, on_vtg, on_zda, on_gsa, on_text, on_line, read_loop}
use babilcors.Caster.Reading.Position.{on_gga}
use babilcors.Caster.Reading.Signal.{on_gsv}

pub Outcome-cases : (o : Outcome) → (o ≡ continues) ⊎ ((o ≡ ends) ⊎ (o ≡ crashes))
Outcome-cases continues = inl refl
Outcome-cases ends = inr (inl refl)
Outcome-cases crashes = inr (inr refl)

pub branch {ℓ κ} :
    {A : Type ℓ} (P : A → Type κ) (b : Bool) (x y : A) → P x → P y → P (if b then x else y)
branch P true x y hx hy = hx
branch P false x y hx hy = hy

module _ (M : Maths) where
  -- Whatever a line is, it is handled by one of the seven.
  pub record Handles (P : Turn M → Type 0) (c : Config M) (now : Clock M) (s : Rover M)
      : Type 0 where
    pub passed : P (go_on M s [])
    pub rmc : (r : Option (Rmc M.numbers)) → P (on_rmc M now s r)
    pub vtg : (v : Option (Vtg M.numbers)) → P (on_vtg M now s v)
    pub zda : (z : Option Zda) → P (on_zda M now s z)
    pub gga : (g : Option (Gga M.numbers)) → P (on_gga M c now s g)
    pub gsa : (g : Option (Gsa M.numbers)) → P (on_gsa M now s g)
    pub gsv : (g : Option Gsv) → P (on_gsv M c now s g)

  pub on_text-elim :
      (P : Turn M → Type 0) (c : Config M) (now : Clock M) (s : Rover M) (line : List ℕ)
      → Handles P c now s
      → P (on_text M c now s line)
  unfolding on_text
  on_text-elim P c now s line h =
      branch P (not (starts_with (b'$' ∷ []) line)) (go_on M s []) _ h.passed (
        branch P (has_word (b'R' ∷ b'M' ∷ b'C' ∷ []) line) _ _ (h.rmc (parse_rmc M.numbers line)) (
          branch P (has_word (b'V' ∷ b'T' ∷ b'G' ∷ []) line) _ _ (h.vtg (parse_vtg M.numbers line))
            (branch P (has_word (b'Z' ∷ b'D' ∷ b'A' ∷ []) line) _ _ (h.zda (parse_zda line)) (
              branch P (has_word (b'G' ∷ b'G' ∷ b'A' ∷ []) line) _ _
                (h.gga (parse_gga M.numbers line))
                (branch P (has_word (b'G' ∷ b'S' ∷ b'A' ∷ []) line) _ _
                  (h.gsa (parse_gsa M.numbers line))
                  (branch P (has_word (b'G' ∷ b'S' ∷ b'V' ∷ []) line) _ _ (h.gsv (parse_gsv line))
                    h.passed))))))

  read_loop-continues :
      (c : Config M) (l : Option (List ℕ)) (now : Clock M) (ls : List (Option (List ℕ) × Clock M))
      (s : Rover M)
      → (on_line M c now s (read_line 1024 l)).outcome ≡ continues
      → read_loop M c ((l, now) ∷ ls) s ≡ (
          with_effects M
            (on_line M c now s (read_line 1024 l)).effects
            (read_loop M c ls (on_line M c now s (read_line 1024 l)).rover))
  unfolding read_loop
  read_loop-continues c l now ls s e = ground (arith, e)

  read_loop-stops :
      (c : Config M) (l : Option (List ℕ)) (now : Clock M) (ls : List (Option (List ℕ) × Clock M))
      (s : Rover M)
      → (on_line M c now s (read_line 1024 l)).outcome ≢ continues
      → read_loop M c ((l, now) ∷ ls) s ≡ on_line M c now s (read_line 1024 l)
  unfolding read_loop
  read_loop-stops c l now ls s e = ground (arith, e)

  -- What each line keeps, from a rover that goes on to the next rover and what becomes of it,
  -- the loop keeps.
  pub read_loop-keeps :
      (Q : Rover M → Outcome → Type 0) (c : Config M)
      → ((now : Clock M) (l : Option (List ℕ)) (s : Rover M)
          → Q s continues
          → Q (on_line M c now s l).rover (on_line M c now s l).outcome)
      → (ls : List (Option (List ℕ) × Clock M)) (s : Rover M) → Q s continues
      → Q (read_loop M c ls s).rover (read_loop M c ls s).outcome
  read_loop-keeps Q c step [] s h = unfold read_loop in h
  read_loop-keeps Q c step ((l, now) ∷ ls) s h =
      let t = on_line M c now s (read_line 1024 l) in
      let next = step now (read_line 1024 l) s h in
      elim (Outcome-cases t.outcome) [
        | inl e ↦
            subst (λ u. Q u.rover u.outcome) (sym (read_loop-continues c l now ls s e))
              (read_loop-keeps Q c step ls t.rover (subst (Q t.rover) e next))
        | inr stopped ↦
            subst (λ u. Q u.rover u.outcome)
              (sym (read_loop-stops c l now ls s (λ e. elim stopped [ inl f ↦ cc | inr f ↦ cc ])))
              next
      ]

  pub on_line-keeps :
      (Q : Rover M → Outcome → Type 0) (c : Config M) (now : Clock M) (s : Rover M)
      → Q s ends
      → Handles (λ t. Q t.rover t.outcome) c now s
      → (l : Option (List ℕ)) → Q (on_line M c now s l).rover (on_line M c now s l).outcome
  unfolding on_line
  on_line-keeps Q c now s over h none = over
  on_line-keeps Q c now s over h (some line) =
      on_text-elim (λ t. Q t.rover t.outcome) c now s (strip line) h
