-- ===== src/Tiers/Epochs.antt =====
-- How many chunks the epoch gate lets through.
use babilcors.Prelude.{
  ℕ, ◌+◌, ◌-◌, ◌*◌, ◌≤◌, ◌<◌, ◌≡◌, true, Option, none, some, List, [], ◌∷◌, arith, ltb, inl, inr,
  if◌then◌else◌, Bool-cases, lt→ltb,
}
use babilcors.Prelude.Int.{ℤ, pos, pos_part}
use babilcors.Tiers.Bucket.{elapsed_split}
use babilcors.Tiers.{epoch_gate_ok, ticks_per_second}

-- `ep_last_ts` after a chunk at `now`, as `on_source_data` of src/caster.py keeps it.
unfoldable pub next_epoch : Option ℕ → ℤ → ℕ → Option ℕ
next_epoch last epm now =
    if epoch_gate_ok last epm now then (if ltb 0 (pos_part epm) then some now else last) else last

-- How many of the chunks at these times pass.
unfoldable pub passed : Option ℕ → ℤ → List ℕ → ℕ
passed last epm [] = 0
passed last epm (t ∷ ts) =
    (if epoch_gate_ok last epm t then 1 else 0) + passed (next_epoch last epm t) epm ts

abbrev pub Sorted : ℕ → List ℕ → Type 0
Sorted t [] = Unit
Sorted t (u ∷ us) = (t ≤ u) × Sorted u us

abbrev pub end_of : ℕ → List ℕ → ℕ
end_of t [] = t
end_of t (u ∷ us) = end_of u us

end_of-le : (t : ℕ) (ts : List ℕ) → Sorted t ts → t ≤ end_of t ts
end_of-le t [] h = omega arith
end_of-le t (u ∷ us) (h, hs) = omega (arith, end_of-le u us hs)

gate_passes :
    (last now epm : ℕ)
    → 0 < epm
    → epoch_gate_ok (some last) (pos epm) now ≡ true
    → 60 * ticks_per_second ≤ (now - last) * epm
unfolding epoch_gate_ok
gate_passes last now epm h e = ground arith

-- A chunk passed at `last`, and the times go on from `now`.
passed_after :
    (last now epm : ℕ) (ts : List ℕ)
    → 0 < epm
    → last ≤ now
    → Sorted now ts
    → passed (some last) (pos epm) ts * (60 * ticks_per_second) ≤ (end_of now ts - last) * epm
unfolding passed next_epoch
passed_after last now epm [] h l order = omega arith
passed_after last now epm (t ∷ ts) h l (o, os) =
    elim (Bool-cases (epoch_gate_ok (some last) (pos epm) t)) [
      | inl through ↦
          rw (through, lt→ltb 0 epm h)
            (omega (
              arith,
              gate_passes last t epm h through,
              passed_after t t epm ts h (omega arith) os,
              elapsed_split last t (end_of t ts) epm (omega arith) (end_of-le t ts os),
            ))
      | inr held ↦ rw held (omega (arith, passed_after last t epm ts h (omega arith) os))
    ]

first_passes : (t epm : ℕ) → epoch_gate_ok none (pos epm) t ≡ true
unfolding epoch_gate_ok
first_passes t epm = ground arith

-- Of chunks that come one after the other, the gate lets through at most one and as many more as
-- whole epochs fit into the time from the first chunk to the last.
pub passed_bound :
    (t epm : ℕ) (ts : List ℕ)
    → 0 < epm
    → Sorted t ts
    → passed none (pos epm) (t ∷ ts) * (60 * ticks_per_second)
      ≤ 60 * ticks_per_second + (end_of t ts - t) * epm
unfolding passed next_epoch
passed_bound t epm ts h order =
    rw (first_passes t epm, lt→ltb 0 epm h)
      (omega (arith, passed_after t t epm ts h (omega arith) order))
