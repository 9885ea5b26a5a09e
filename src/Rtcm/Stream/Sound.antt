-- ===== src/Rtcm/Stream/Sound.antt =====
-- What `feed` returns was in the bytes that it was given: frames with a right checksum, in order.
use babilcors.Prelude.{
  ℕ, zero, suc, ◌+◌, ◌-◌, ◌≤◌, ◌<◌, ◌≡◌, refl, sym, ◌∙◌, subst, some, some-injective, List, [], ◌∷◌,
  ◌++◌, arith, ◌⊎◌, inl, inr, ◌≢◌, Bool-cases, Option-cases, ==_iff, take-length, drop-length,
  length, get_or, take, drop, length-take, take-append-drop, get_or-take, ltb, ◌==◌,
}
use babilcors.Rtcm.Crc.{crc24q}
use babilcors.Rtcm.Stream.{
  RtcmFrame, Round, wait, bad, good, rtcm_message_type, to_preamble, payload_length, crc_expected,
  check_frame, round_at, round, Fed, feed_loop, feed,
}
use babilcors.Rtcm.Stream.Rounds.{payload_length-append}
use babilcors.Rtcm.Stream.Feed.{after, count_bad-inv, add_frame-inv, feed_loop-suc}

-- A transport frame: the preamble, the length, a right checksum, and the type of its message.
pub record IsFrame (fr : RtcmFrame) : Type 0 where
  pub preamble : get_or fr.raw 0 0 ≡ 0xd3
  pub size : length fr.raw ≡ 3 + payload_length fr.raw + 3
  pub checksum : crc24q (take (length fr.raw - 3) fr.raw) ≡ crc_expected fr.raw (length fr.raw)
  pub typed : rtcm_message_type (take (payload_length fr.raw) (drop 3 fr.raw)) ≡ some fr.msg_type

-- No frame begins here.
abbrev pub NoFrame : List ℕ → Type 0
NoFrame bytes = (fr : RtcmFrame) (tail : List ℕ) → bytes ≡ fr.raw ++ tail → ¬ IsFrame fr

-- A frame that begins here, if any, is not complete.
abbrev pub IsPartial : List ℕ → Type 0
IsPartial [] = Unit
IsPartial (b ∷ rest) =
    (b ≡ 0xd3) × ((length (b ∷ rest) < 3) ⊎ (length (b ∷ rest) < 3 + payload_length (b ∷ rest) + 3))

-- How a stream of bytes is to be read: frames in order, other bytes passed over, a preamble
-- that begins no frame counted as an error, and an unfinished frame left at the end.
pub data Reads : List ℕ → List RtcmFrame → ℕ → List ℕ → Type 0 where
  rest : (left : List ℕ) → IsPartial left → Reads left [] 0 left
  skip :
      {bytes left : List ℕ} {frames : List RtcmFrame} {errors : ℕ} (b : ℕ)
      → b ≢ 0xd3
      → Reads bytes frames errors left
      → Reads (b ∷ bytes) frames errors left
  reject :
      {bytes left : List ℕ} {frames : List RtcmFrame} {errors : ℕ}
      → NoFrame (0xd3 ∷ bytes)
      → Reads bytes frames errors left
      → Reads (0xd3 ∷ bytes) frames (suc errors) left
  frame :
      {whole bytes left : List ℕ} {frames : List RtcmFrame} {errors : ℕ} (fr : RtcmFrame)
      → IsFrame fr
      → whole ≡ fr.raw ++ bytes
      → Reads bytes frames errors left
      → Reads whole (fr ∷ frames) errors left

skip_to_preamble :
    (buf : List ℕ) {frames : List RtcmFrame} {errors : ℕ} {left : List ℕ}
    → Reads (to_preamble buf) frames errors left
    → Reads buf frames errors left
unfolding to_preamble
skip_to_preamble [] c = c
skip_to_preamble (b ∷ buf) {frames} {errors} {left} c = elim (Bool-cases (b == 0xd3)) [
  | inl here ↦ rw here at c
  | inr other ↦ skip b (ground arith) (skip_to_preamble buf (rw other at c))
]

-- What a round found at the preamble.
abbrev pub Found : List ℕ → Round → Type 0
Found buf (wait left) = (buf ≡ left) × IsPartial left
Found buf (bad left) = (buf ≡ 0xd3 ∷ left) × NoFrame buf
Found buf (good fr left) = IsFrame fr × (buf ≡ fr.raw ++ left)

payload_length-take :
    (n : ℕ) (buf : List ℕ) → 3 ≤ n → payload_length (take n buf) ≡ payload_length buf
unfolding payload_length
payload_length-take n buf h =
    rw (get_or-take n 1 buf 0 (omega arith), get_or-take n 2 buf 0 (omega arith))

-- The two tests of `check_frame`, on the frame that it cuts out.
module _ (buf : List ℕ) (n : ℕ) where
  abbrev cut_out : List ℕ
  cut_out = take (3 + n + 3) buf

  check_frame-good :
      (mt : ℕ)
      → crc24q (take (3 + n + 3 - 3) cut_out) ≡ crc_expected cut_out (3 + n + 3)
      → rtcm_message_type (take n (drop 3 cut_out)) ≡ some mt
      → check_frame buf n ≡ good (record { msg_type = mt; raw = cut_out }) (drop (3 + n + 3) buf)
  unfolding check_frame
  check_frame-good mt sums typed = ground arith

  check_frame-cases :
      (check_frame buf n ≡ bad (drop 1 buf))
      ⊎ ((mt : ℕ) × (crc24q (take (3 + n + 3 - 3) cut_out) ≡ crc_expected cut_out (3 + n + 3))
          × (rtcm_message_type (take n (drop 3 cut_out)) ≡ some mt)
          × (check_frame buf n
              ≡ good (record { msg_type = mt; raw = cut_out }) (drop (3 + n + 3) buf)))
  unfolding check_frame
  check_frame-cases = elim (Option-cases (rtcm_message_type (take n (drop 3 cut_out)))) [
    | inl e ↦ inl (ground (arith, e))
    | inr (mt, e) ↦
        elim (Bool-cases
          (crc24q (take (3 + n + 3 - 3) cut_out) == crc_expected cut_out (3 + n + 3))) [
            | inl same ↦ inr (mt, (==_iff _ _).0 same, e, ground (arith, e))
            | inr other ↦ inl (rw other)
          ]
  ]

-- A frame at the front of the buffer passes the tests.
pub check_frame-finds :
    (fr : RtcmFrame) (tail : List ℕ)
    → IsFrame fr
    → check_frame (fr.raw ++ tail) (payload_length (fr.raw ++ tail)) ≡ good fr tail
check_frame-finds fr tail v =
    let n = payload_length fr.raw in
    let total : length fr.raw ≡ 3 + n + 3 = v.size in
    let same : take (3 + n + 3) (fr.raw ++ tail) ≡ fr.raw =
      take-length fr.raw tail (3 + n + 3) (sym total) in
    rw (payload_length-append fr.raw tail (omega (arith, total))) (
      check_frame-good (fr.raw ++ tail) n fr.msg_type (rw (same, ← total) v.checksum)
        (rw same v.typed)
      ∙ rw (same, drop-length fr.raw tail (3 + n + 3) (sym total)))

bad-ne-good : {left tail : List ℕ} {fr : RtcmFrame} → bad left ≢ good fr tail
bad-ne-good e = cc

-- Where the tests fail, no frame begins.
bad-NoFrame : (buf left : List ℕ) → check_frame buf (payload_length buf) ≡ bad left → NoFrame buf
bad-NoFrame buf left e fr tail whole v = bad-ne-good (
    sym e
    ∙ subst (λ b. check_frame b (payload_length b) ≡ good fr tail) (sym whole)
        (check_frame-finds fr tail v))

-- Where they hold, the bytes cut out are a frame.
good-IsFrame :
    (buf : List ℕ) (mt : ℕ)
    → let n = payload_length buf in
      3 + n + 3 ≤ length buf
      → get_or buf 0 0 ≡ 0xd3
      → crc24q (take (3 + n + 3 - 3) (cut_out buf n)) ≡ crc_expected (cut_out buf n) (3 + n + 3)
      → rtcm_message_type (take n (drop 3 (cut_out buf n))) ≡ some mt
      → IsFrame (record { msg_type = mt; raw = cut_out buf n })
good-IsFrame buf mt h first sums typed =
    let n = payload_length buf in
    let size : length (cut_out buf n) ≡ 3 + n + 3 = omega (arith, length-take (3 + n + 3) buf) in
    let same : payload_length (cut_out buf n) ≡ n =
      payload_length-take (3 + n + 3) buf (omega arith) in
    record {
      preamble = get_or-take (3 + n + 3) 0 buf 0 (omega arith) ∙ first;
      size = rw (same, size);
      checksum = rw (size, sums);
      typed = rw (same, typed);
    }

check_frame-Found :
    (more : List ℕ)
    → 3 + payload_length (0xd3 ∷ more) + 3 ≤ length (0xd3 ∷ more)
    → Found (0xd3 ∷ more) (check_frame (0xd3 ∷ more) (payload_length (0xd3 ∷ more)))
check_frame-Found more h =
    let buf = 0xd3 ∷ more in
    let n = payload_length buf in
    elim (check_frame-cases buf n) [
      | inl e ↦ rw e (refl, bad-NoFrame buf more e)
      | inr (mt, sums, typed, e) ↦
          rw e (good-IsFrame buf mt h refl sums typed, sym (take-append-drop (3 + n + 3) buf))
    ]

round_at-Found : (p : List ℕ) → get_or p 0 0xd3 ≡ 0xd3 → Found p (round_at p)
unfolding round_at
round_at-Found [] e = (refl, tt)
round_at-Found (b ∷ more) e = subst (λ c. Found (c ∷ more) (round_at (c ∷ more))) (sym e) here
  where
    here : Found (0xd3 ∷ more) (round_at (0xd3 ∷ more))
    here = elim (Bool-cases (ltb (length (0xd3 ∷ more)) 3)) [
      | inl short ↦ rw short (refl, (refl, inl (ground arith)))
      | inr long ↦
          elim (Bool-cases (ltb (length (0xd3 ∷ more)) (3 + payload_length (0xd3 ∷ more) + 3))) [
            | inl short ↦ rw (long, short) (refl, (refl, inr (ground arith)))
            | inr there ↦ rw (long, there) (check_frame-Found more (ground arith))
          ]
    ]

to_preamble-first : (buf : List ℕ) → get_or (to_preamble buf) 0 0xd3 ≡ 0xd3
unfolding to_preamble
to_preamble-first [] = refl
to_preamble-first (c ∷ buf) = ground (arith, to_preamble-first buf)

pub round-Found : (buf : List ℕ) → Found (to_preamble buf) (round buf)
unfolding round
round-Found buf = round_at-Found (to_preamble buf) (to_preamble-first buf)

-- `r` is what the stream is to be read as.
abbrev pub ReadsAs : List ℕ → Fed → Type 0
ReadsAs bytes r = Reads bytes r.frames r.crc_errors r.buf

after-Reads :
    (f : ℕ) (p : List ℕ) (d : Round) (r : Fed)
    → Found p d
    → ((left : List ℕ) (q : Fed) → feed_loop f left ≡ some q → ReadsAs left q)
    → after f d ≡ some r
    → ReadsAs p r
after-Reads f p (wait left) r (same, partial) ih e =
    subst (ReadsAs p) (some-injective _ _ e) (rw same (rest left partial))
after-Reads f p (bad left) r (same, none_here) ih e =
    let (q, e', e'') = count_bad-inv (feed_loop f left) r e in
    subst (ReadsAs p) (some-injective _ _ e'')
      (rw same (reject (rw same at none_here) (ih left q e')))
after-Reads f p (good fr left) r (valid, same) ih e =
    let (q, e', e'') = add_frame-inv fr (feed_loop f left) r e in
    subst (ReadsAs p) (some-injective _ _ e'') (frame fr valid same (ih left q e'))

feed_loop-Reads : (f : ℕ) (buf : List ℕ) (r : Fed) → feed_loop f buf ≡ some r → ReadsAs buf r
feed_loop-Reads zero buf r e = unfold feed_loop in cc
feed_loop-Reads (suc f) buf r e = skip_to_preamble buf (
    after-Reads f (to_preamble buf) (round buf) r (round-Found buf) (feed_loop-Reads f)
      (sym (feed_loop-suc f buf) ∙ e))

-- What `feed` returns is how the bytes are to be read: every frame has the preamble, its length,
-- a right checksum and its type, in order; every preamble that begins no frame is one error, every
-- other byte outside a frame is passed over, and only an unfinished frame stays in the buffer.
pub feed-Reads : (buf chunk : List ℕ) (r : Fed) → feed buf chunk ≡ some r → ReadsAs (buf ++ chunk) r
unfolding feed
feed-Reads buf chunk r = feed_loop-Reads (suc (length (buf ++ chunk))) (buf ++ chunk) r
