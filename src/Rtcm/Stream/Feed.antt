-- ===== src/Rtcm/Stream/Feed.antt =====
-- `feed` ends, and how the bytes are cut into chunks does not change what it finds.
use babilcors.Prelude.{
  ℕ, zero, suc, ◌+◌, ◌≤◌, ◌<◌, ◌≡◌, refl, sym, ◌∙◌, ap, inl, inr, Option, none, some, List, [], ◌∷◌,
  ◌++◌, append_assoc, arith, length, ◌>>=◌,
}
use babilcors.Rtcm.Stream.{
  RtcmFrame, Round, wait, bad, good, to_preamble, round, Fed, feed_loop, feed,
}
use babilcors.Rtcm.Stream.Rounds.{
  Shortens, Decides, extend, round-Shortens, round-append, round-absorb,
}

-- What a caller has after one run and then another.
abbrev pub both : Fed → Fed → Fed
both r s = record {
  frames = r.frames ++ s.frames;
  crc_errors = r.crc_errors + s.crc_errors;
  buf = s.buf;
}

abbrev pub count_bad : Option Fed → Option Fed
count_bad none = none
count_bad (some r) = some (record r { crc_errors = suc r.crc_errors })

abbrev pub add_frame : RtcmFrame → Option Fed → Option Fed
add_frame fr none = none
add_frame fr (some r) = some (record r { frames = fr ∷ r.frames })

-- The loop after a given round.
abbrev pub after : ℕ → Round → Option Fed
after f (wait left) = some (record { frames = []; crc_errors = 0; buf = left })
after f (bad left) = count_bad (feed_loop f left)
after f (good fr left) = add_frame fr (feed_loop f left)

pub feed_loop-suc : (f : ℕ) (buf : List ℕ) → feed_loop (suc f) buf ≡ after f (round buf)
unfolding feed_loop
feed_loop-suc f buf = ground arith

after-total :
    (f n : ℕ) (d : Round)
    → n ≤ f
    → Shortens n d
    → ((left : List ℕ) → length left < f → (r : Fed) × (feed_loop f left ≡ some r))
    → (r : Fed) × (after f d ≡ some r)
after-total f n (wait left) h s ih = (record { frames = []; crc_errors = 0; buf = left }, refl)
after-total f n (bad left) h s ih =
    let (r, e) = ih left (omega arith) in
    (record r { crc_errors = suc r.crc_errors }, ap count_bad e)
after-total f n (good fr left) h s ih =
    let (r, e) = ih left (omega arith) in (record r { frames = fr ∷ r.frames }, ap (add_frame fr) e)

-- Fuel above the buffer's length is enough.
pub feed_loop-total :
    (f : ℕ) (buf : List ℕ) → length buf < f → (r : Fed) × (feed_loop f buf ≡ some r)
feed_loop-total zero buf h = absurd (omega arith)
feed_loop-total (suc f) buf h =
    let (r, e) =
      after-total f (length buf) (round buf) (omega arith) (round-Shortens buf)
        (feed_loop-total f) in
    (r, feed_loop-suc f buf ∙ e)

pub count_bad-inv :
    (o : Option Fed) (r : Fed)
    → count_bad o ≡ some r
    → (s : Fed) × (o ≡ some s) × (count_bad (some s) ≡ some r)
count_bad-inv none r e = cc
count_bad-inv (some s) r e = (s, refl, e)

pub add_frame-inv :
    (fr : RtcmFrame) (o : Option Fed) (r : Fed)
    → add_frame fr o ≡ some r
    → (s : Fed) × (o ≡ some s) × (add_frame fr (some s) ≡ some r)
add_frame-inv fr none r e = cc
add_frame-inv fr (some s) r e = (s, refl, e)

after-more :
    (f g : ℕ) (d : Round) (r : Fed)
    → ((left : List ℕ) (s : Fed) → feed_loop f left ≡ some s → feed_loop g left ≡ some s)
    → after f d ≡ some r
    → after g d ≡ some r
after-more f g (wait left) r ih e = e
after-more f g (bad left) r ih e =
    let (s, p, q) = count_bad-inv (feed_loop f left) r e in ap count_bad (ih left s p) ∙ q
after-more f g (good fr left) r ih e =
    let (s, p, q) = add_frame-inv fr (feed_loop f left) r e in ap (add_frame fr) (ih left s p) ∙ q

-- More fuel gives the same result.
pub feed_loop-more :
    (f g : ℕ) (buf : List ℕ) (r : Fed) → f ≤ g → feed_loop f buf ≡ some r → feed_loop g buf ≡ some r
feed_loop-more zero g buf r h e = unfold feed_loop in cc
feed_loop-more (suc f) zero buf r h e = absurd (omega arith)
feed_loop-more (suc f) (suc g) buf r h e =
    feed_loop-suc g buf
    ∙ after-more f g (round buf) r (λ left s. feed_loop-more f g left s (omega arith))
        (sym (feed_loop-suc f buf) ∙ e)

-- The rest of the run on the longer buffer, after a round that decided something.
after-extend :
    (f n : ℕ) (ext : List ℕ) (d : Round) (r s : Fed)
    → Decides d
    → after f d ≡ some r
    → ((left : List ℕ) (q : Fed)
        → feed_loop f left ≡ some q
        → q.buf ≡ r.buf
        → feed_loop n (left ++ ext) ≡ some (both q s))
    → after n (extend ext d) ≡ some (both r s)
after-extend f n ext (wait left) r s ne e ih = absurd ne
after-extend f n ext (bad left) r s ne e ih =
    let (q, p, x) = count_bad-inv (feed_loop f left) r e in
    ap count_bad (ih left q p (cc)) ∙ ground (arith)
after-extend f n ext (good fr left) r s ne e ih =
    let (q, p, x) = add_frame-inv fr (feed_loop f left) r e in
    ap (add_frame fr) (ih left q p (cc)) ∙ ground (arith)

-- A run, and a run on what it left with more bytes, make one run.
pub feed_loop-append :
    (f g n : ℕ) (buf ext : List ℕ) (r s : Fed)
    → feed_loop f buf ≡ some r
    → feed_loop g (r.buf ++ ext) ≡ some s
    → f + g ≤ n
    → feed_loop n (buf ++ ext) ≡ some (both r s)
feed_loop-append zero g n buf ext r s e e' h = unfold feed_loop in cc
feed_loop-append (suc f) g zero buf ext r s e e' h = absurd (omega arith)
feed_loop-append (suc f) g (suc n) buf ext r s e e' h =
    let step : after f (round buf) ≡ some r = sym (feed_loop-suc f buf) ∙ e in
    feed_loop-suc n (buf ++ ext) ∙ elim (round-append buf ext) [
      | inl waits ↦
          let known : some r ≡ after f (wait (to_preamble buf)) = sym step ∙ ap (after f) waits in
          let left : r.buf ≡ to_preamble buf = cc known in
          let whole : round (r.buf ++ ext) ≡ round (buf ++ ext) =
            ap (λ p. round (p ++ ext)) left ∙ round-absorb buf ext in
          ap (after n) (sym whole)
          ∙ sym (feed_loop-suc n (r.buf ++ ext))
          ∙ feed_loop-more g (suc n) (r.buf ++ ext) s (omega arith) e'
          ∙ ground (arith, known)
      | inr (grows, d) ↦
          ap (after n) grows
          ∙ after-extend f n ext (round buf) r s d step (λ left q p same.
            feed_loop-append f g n left ext q s p (ap (λ b. feed_loop g (b ++ ext)) same ∙ e')
              (omega arith))
    ]

-- `feed` returns.
pub feed_total : (buf chunk : List ℕ) → (r : Fed) × (feed buf chunk ≡ some r)
unfolding feed
feed_total buf chunk = feed_loop-total (suc (length (buf ++ chunk))) (buf ++ chunk) (omega arith)

feed-append_found :
    (buf a b : List ℕ) (r s : Fed)
    → feed buf a ≡ some r
    → feed r.buf b ≡ some s
    → feed buf (a ++ b) ≡ some (both r s)
unfolding feed
feed-append_found buf a b r s e e' =
    let f = suc (length (buf ++ a)) in
    let g = suc (length (r.buf ++ b)) in
    let n = suc (length (buf ++ a ++ b)) in
    let (t, whole) = feed_total buf (a ++ b) in
    let more : feed_loop (n + (f + g)) (buf ++ (a ++ b)) ≡ some t =
      feed_loop-more n (n + (f + g)) (buf ++ (a ++ b)) t (omega arith)
        (ap (λ l. feed_loop (suc (length l)) (buf ++ (a ++ b))) (append_assoc buf a b) ∙ whole) in
    let parts : feed_loop (n + (f + g)) (buf ++ (a ++ b)) ≡ some (both r s) =
      ap (feed_loop (n + (f + g))) (sym (append_assoc buf a b))
      ∙ feed_loop-append f g (n + (f + g)) (buf ++ a) b r s e e' (omega arith) in
    whole ∙ sym more ∙ parts

-- Feeding two chunks, one after the other, finds the frames and counts the errors that feeding
-- them as one chunk does, and leaves the same buffer.
pub feed-append :
    (buf a b : List ℕ) → feed buf (a ++ b) ≡ (do r ← feed buf a; s ← feed r.buf b; some (both r s))
feed-append buf a b =
    let (r, e) = feed_total buf a in
    let (s, e') = feed_total r.buf b in feed-append_found buf a b r s e e' ∙ ground (arith, e, e')
