-- ===== src/Rtcm/Stream/Rounds.antt =====
-- One round of `feed`: it makes progress, and bytes that come later do not change what it decides.
use babilcors.Prelude.{
  ℕ, ◌+◌, ◌≤◌, ◌<◌, ◌≡◌, refl, ap, ◌⊎◌, inl, inr, List, [], ◌∷◌, ◌++◌, arith, length, length-drop,
  take-append, drop-append, get_or-append, length-append,
}
use babilcors.Rtcm.Stream.{
  Round, wait, bad, good, to_preamble, payload_length, crc_expected, check_frame, round_at, round,
}

pub length-to_preamble : (buf : List ℕ) → length (to_preamble buf) ≤ length buf
unfolding to_preamble
length-to_preamble [] = omega arith
length-to_preamble (b ∷ rest) = ground (arith, length-to_preamble rest)

-- Bytes that were passed over once are passed over again.
pub to_preamble-absorb :
    (buf ext : List ℕ) → to_preamble (to_preamble buf ++ ext) ≡ to_preamble (buf ++ ext)
unfolding to_preamble
to_preamble-absorb [] ext = refl
to_preamble-absorb (b ∷ rest) ext = ground (arith, to_preamble-absorb rest ext)

pub to_preamble-append :
    (buf ext : List ℕ)
    → 0 < length (to_preamble buf)
    → to_preamble (buf ++ ext) ≡ to_preamble buf ++ ext
unfolding to_preamble
to_preamble-append [] ext h = absurd (omega arith)
to_preamble-append (b ∷ rest) ext h = ground (arith, to_preamble-append rest ext)

-- What a round leaves is shorter than what it was given, unless it waits.
abbrev pub Shortens : ℕ → Round → Type 0
Shortens n (wait left) = length left ≤ n
Shortens n (bad left) = length left < n
Shortens n (good fr left) = length left < n

check_frame-Shortens :
    (buf : List ℕ) (n : ℕ) → 3 + n + 3 ≤ length buf → Shortens (length buf) (check_frame buf n)
unfolding check_frame
check_frame-Shortens buf n h = ground (arith, length-drop 1 buf, length-drop (3 + n + 3) buf)

round_at-Shortens : (buf : List ℕ) → Shortens (length buf) (round_at buf)
unfolding round_at
round_at-Shortens buf = ground (arith, check_frame-Shortens buf (payload_length buf))

Shortens-mono : (m n : ℕ) (r : Round) → m ≤ n → Shortens m r → Shortens n r
Shortens-mono m n (wait left) h s = omega arith
Shortens-mono m n (bad left) h s = omega arith
Shortens-mono m n (good fr left) h s = omega arith

pub round-Shortens : (buf : List ℕ) → Shortens (length buf) (round buf)
unfolding round
round-Shortens buf =
    Shortens-mono (length (to_preamble buf)) (length buf) (round_at (to_preamble buf))
      (length-to_preamble buf) (round_at-Shortens (to_preamble buf))

-- The same decision, with more bytes left.
abbrev pub extend : List ℕ → Round → Round
extend ext (wait left) = wait (left ++ ext)
extend ext (bad left) = bad (left ++ ext)
extend ext (good fr left) = good fr (left ++ ext)

pub payload_length-append :
    (buf ext : List ℕ) → 3 ≤ length buf → payload_length (buf ++ ext) ≡ payload_length buf
unfolding payload_length
payload_length-append buf ext h =
    rw (get_or-append 1 buf ext 0 (omega arith), get_or-append 2 buf ext 0 (omega arith))

check_frame-append :
    (buf ext : List ℕ) (n : ℕ)
    → 3 + n + 3 ≤ length buf
    → check_frame (buf ++ ext) n ≡ extend ext (check_frame buf n)
unfolding check_frame crc_expected
check_frame-append buf ext n h =
    ground (
      arith,
      take-append (3 + n + 3) buf ext,
      drop-append 1 buf ext,
      drop-append (3 + n + 3) buf ext,
    )

abbrev pub Decides : Round → Type 0
Decides (wait left) = ⊥
Decides (bad left) = Unit
Decides (good fr left) = Unit

check_frame-Decides : (p : List ℕ) (n : ℕ) → Decides (check_frame p n)
unfolding check_frame
check_frame-Decides p n = ground arith

round_at-append :
    (p ext : List ℕ)
    → ((round_at p ≡ wait p)
        ⊎ ((0 < length p) × (round_at (p ++ ext) ≡ extend ext (round_at p)) × Decides (round_at p)))
unfolding round_at
round_at-append p ext = ground (
  arith,
  length-append p ext,
  payload_length-append p ext,
  check_frame-append p ext (payload_length p),
  check_frame-Decides p (payload_length p),
)

-- A round that waits leaves the buffer from the preamble on; any other decides for good.
pub round-append :
    (buf ext : List ℕ)
    → ((round buf ≡ wait (to_preamble buf))
        ⊎ ((round (buf ++ ext) ≡ extend ext (round buf)) × Decides (round buf)))
unfolding round
round-append buf ext = elim (round_at-append (to_preamble buf) ext) [
  | inl e ↦ inl e
  | inr (there, e, d) ↦ inr (rw (to_preamble-append buf ext there) e, d)
]

-- A round goes on from what a waiting round left as from the whole.
pub round-absorb : (buf ext : List ℕ) → round (to_preamble buf ++ ext) ≡ round (buf ++ ext)
unfolding round
round-absorb buf ext = ap round_at (to_preamble-absorb buf ext)
