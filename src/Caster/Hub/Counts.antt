-- ===== src/Caster/Hub/Counts.antt =====
-- The counters of RTCM frames: they add up, they stay bounded, and each type's is exact.
use babilcors.Prelude.{
  ℕ, suc, ◌+◌, ◌≡◌, refl, sym, ap, ◌≤◌, ◌<◌, ◌⊎◌, inl, inr, Option, none, some, List, [], ◌∷◌, ◌==◌,
  ==_iff, length, if◌then◌else◌, or_else, arith, Option-cases, Bool-cases,
}
use native.Mathlib.Nat.{add-zero, add_assoc}
use babilcors.Prelude.Dict.{
  nat_eq, Dict, lookup, insert, lookup-insert, length-insert, length-insert-ge, length-insert_found,
  sum_values, sum_values-insert,
}
use babilcors.Caster.Hub.{Hub, count_type, record_rtcm_frame, rtcm_max_types}

-- Frames of these types, each with the time at which it came.
pub record_all : List (ℕ × ℕ) → Hub → Hub
record_all [] h = h
record_all ((now, t) ∷ rest) h = record_all rest (record_rtcm_frame now t h)

abbrev pub occurrences : ℕ → List (ℕ × ℕ) → ℕ
occurrences t [] = 0
occurrences t ((now, u) ∷ rest) = (if u == t then 1 else 0) + occurrences t rest

-- Within the limit, or one over it for key 0.
abbrev pub Fits : Dict ℕ ℕ → Type 0
Fits d =
    (length d ≤ rtcm_max_types)
    ⊎ ((length d ≤ suc rtcm_max_types) × ((n : ℕ) × (lookup 0 d ≡ some n)))

count_type-found :
    (t n : ℕ) (d : Dict ℕ ℕ) → lookup t d ≡ some n → count_type t d ≡ insert t (n + 1) d
unfolding count_type
count_type-found t n d e = ground (arith, e)

count_type-full :
    (t : ℕ) (d : Dict ℕ ℕ)
    → lookup t d ≡ none
    → rtcm_max_types ≤ length d
    → count_type t d ≡ insert 0 (or_else (lookup 0 d) 0 + 1) d
unfolding count_type
count_type-full t d e h = ground (arith, e)

count_type-new :
    (t : ℕ) (d : Dict ℕ ℕ)
    → lookup t d ≡ none
    → length d < rtcm_max_types
    → count_type t d ≡ insert t 1 d
unfolding count_type
count_type-new t d e h = ground (arith, e)

-- The three cases of a count.
abbrev Case : ℕ → Dict ℕ ℕ → Type 0
Case t d =
    ((n : ℕ) × (lookup t d ≡ some n))
    ⊎ ((lookup t d ≡ none) × ((rtcm_max_types ≤ length d) ⊎ (length d < rtcm_max_types)))

count-cases : (t : ℕ) (d : Dict ℕ ℕ) → Case t d
count-cases t d = ground (arith, Option-cases (lookup t d))

value_or_0 :
    (t : ℕ) (d : Dict ℕ ℕ) (o : Option ℕ) → lookup t d ≡ o → or_else (lookup t d) 0 ≡ or_else o 0
value_or_0 t d o e = ap (λ p. or_else p 0) e

count_type-sum : (t : ℕ) (d : Dict ℕ ℕ) → sum_values (count_type t d) ≡ sum_values d + 1
count_type-sum t d = elim (count-cases t d) [
  | inl (n, e) ↦
      rw (count_type-found t n d e)
        (omega (arith, sum_values-insert t n (n + 1) d (value_or_0 t d (some n) e)))
  | inr (e, inl h) ↦
      let m = or_else (lookup 0 d) 0 in
      rw (count_type-full t d e h) (omega (arith, sum_values-insert 0 m (m + 1) d refl))
  | inr (e, inr h) ↦
      rw (count_type-new t d e h) (omega (arith, sum_values-insert t 0 1 d (value_or_0 t d none e)))
]

insert-keeps :
    (k j v m : ℕ) (d : Dict ℕ ℕ)
    → lookup j d ≡ some m
    → (n : ℕ) × (lookup j (insert k v d) ≡ some n)
insert-keeps k j v m d e = elim (Bool-cases (k == j)) [
  | inl same ↦ (v, rw (lookup-insert k j v d, same) refl)
  | inr other ↦ (m, rw (lookup-insert k j v d, other) e)
]

insert-Fits :
    (k v : ℕ) (d : Dict ℕ ℕ) → length (insert k v d) ≡ length d → Fits d → Fits (insert k v d)
insert-Fits k v d e (inl l) = inl (omega (arith, e))
insert-Fits k v d e (inr (l, (m, f))) = inr (omega (arith, e), insert-keeps k 0 v m d f)

insert-Fits_0 : (v : ℕ) (d : Dict ℕ ℕ) → Fits d → Fits (insert 0 v d)
insert-Fits_0 v d (inl l) = inr (omega (arith, length-insert 0 v d), (v, lookup-insert 0 0 v d))
insert-Fits_0 v d (inr (l, (m, f))) =
    insert-Fits 0 v d (length-insert_found 0 v m d f) (inr (l, (m, f)))

count_type-Fits : (t : ℕ) (d : Dict ℕ ℕ) → Fits d → Fits (count_type t d)
count_type-Fits t d h = elim (count-cases t d) [
  | inl (n, e) ↦
      rw (count_type-found t n d e)
        (insert-Fits t (n + 1) d (length-insert_found t (n + 1) n d e) h)
  | inr (e, inl h') ↦ rw (count_type-full t d e h') (insert-Fits_0 (or_else (lookup 0 d) 0 + 1) d h)
  | inr (e, inr h') ↦ rw (count_type-new t d e h') (inl (omega (arith, length-insert t 1 d)))
]

-- After any frames, the counts add up to the number of frames, and there are at most 65 of them.
pub record_all-sum :
    (frames : List (ℕ × ℕ)) (h : Hub)
    → sum_values h.rtcm_msg_counts ≡ h.rtcm_frames_total
    → Fits h.rtcm_msg_counts
    → (sum_values (record_all frames h).rtcm_msg_counts ≡ (record_all frames h).rtcm_frames_total)
      × Fits (record_all frames h).rtcm_msg_counts
unfolding record_all record_rtcm_frame
record_all-sum [] h e f = (e, f)
record_all-sum ((now, t) ∷ rest) h e f =
    record_all-sum rest (record_rtcm_frame now t h)
      (omega (arith, count_type-sum t h.rtcm_msg_counts, e)) (count_type-Fits t h.rtcm_msg_counts f)

-- What is known of a type's count: it is the number of its frames, or there is none, since no
-- frame of it has come or the table is full.
abbrev pub Tally : ℕ → ℕ → Dict ℕ ℕ → Type 0
Tally t seen d =
    (lookup t d ≡ some seen) ⊎ ((lookup t d ≡ none) × ((seen ≡ 0) ⊎ (rtcm_max_types ≤ length d)))

count_type-Tally :
    (u t seen : ℕ) (d : Dict ℕ ℕ)
    → 0 < t
    → Tally t seen d
    → Tally t (seen + (if u == t then 1 else 0)) (count_type u d)
count_type-Tally u t seen d pos h = elim (count-cases u d) [
  | inl (n, e) ↦
      rw (count_type-found u n d e) (
        ground (arith, h, e, lookup-insert u t (n + 1) d, length-insert-ge u (n + 1) d, ==_iff u t))
  | inr (e, inl h') ↦ rw (count_type-full u d e h') (
      ground (
        arith,
        h,
        e,
        lookup-insert 0 t (or_else (lookup 0 d) 0 + 1) d,
        length-insert-ge 0 (or_else (lookup 0 d) 0 + 1) d,
        ==_iff 0 t,
        ==_iff u t,
      ))
  | inr (e, inr h') ↦
      rw (count_type-new u d e h')
        (ground (arith, h, e, lookup-insert u t 1 d, length-insert-ge u 1 d, ==_iff u t))
]

-- After any frames, the count of a type other than 0 is the number of its frames, seen before
-- among them; where there is no count, there was no such frame or the table is full.
pub record_all-Tally :
    (frames : List (ℕ × ℕ)) (t seen : ℕ) (h : Hub)
    → 0 < t
    → Tally t seen h.rtcm_msg_counts
    → Tally t (seen + occurrences t frames) (record_all frames h).rtcm_msg_counts
unfolding record_all record_rtcm_frame
record_all-Tally [] t seen h pos k = rw (add-zero seen) k
record_all-Tally ((now, u) ∷ rest) t seen h pos k =
    rw (sym (add_assoc seen (if u == t then 1 else 0) (occurrences t rest))) (
      record_all-Tally rest t (seen + (if u == t then 1 else 0)) (record_rtcm_frame now u h) pos
        (count_type-Tally u t seen h.rtcm_msg_counts pos k))
