-- ===== src/Caster/Source/Wire.antt =====
-- From a source's bytes to the hub and its rovers: `_handle_source` of src/caster.py with the
-- parser of src/rtcm.py.
use babilcors.Prelude.{
  ℕ, suc, ◌+◌, ◌≡◌, refl, sym, ap, ◌∙◌, subst, some, some-injective, List, [], ◌∷◌, ◌++◌,
  append-nil, append_assoc, length, length-append, All, arith,
}
use babilcors.Rtcm.Stream.{RtcmFrame, Fed, feed}
use babilcors.Rtcm.Stream.Feed.{both, feed_total, feed-append}
use babilcors.Rtcm.Stream.Encode.{Packet, IsNoise, IsPacket, wire, decoded, feed-wire, encode}
use babilcors.Caster.Hub.{Session, Hub}
use babilcors.Caster.Source.{Feeding, handle_fed, receive, receive_all}
use babilcors.Caster.Source.Frames.{
  Grown, size_of, raws, passed, handle_fed-Grown, handle_fed-passed,
}

-- The bytes of the chunks, in order, up to the first that is empty.
abbrev pub joined : List (ℕ × List ℕ) → List ℕ
joined [] = []
joined ((now, []) ∷ rest) = []
joined ((now, b ∷ chunk) ∷ rest) = (b ∷ chunk) ++ joined rest

-- The times at which chunks are read, up to the first that is empty.
abbrev pub read_times : List (ℕ × List ℕ) → List ℕ
read_times [] = []
read_times ((now, []) ∷ rest) = []
read_times ((now, b ∷ chunk) ∷ rest) = now ∷ read_times rest

-- Rovers after bytes that were offered to each of them at some times.
abbrev pub passed_all : List (ℕ × List ℕ) → List Session → List Session
passed_all [] ss = ss
passed_all ((now, out) ∷ outs) ss = passed_all outs (passed now out ss)

abbrev pub all_bytes : List (ℕ × List ℕ) → List ℕ
all_bytes [] = []
all_bytes ((now, out) ∷ outs) = out ++ all_bytes outs

abbrev pub times : List (ℕ × List ℕ) → List ℕ
times [] = []
times ((now, out) ∷ outs) = now ∷ times outs

receive-some :
    (now : ℕ) (chunk : List ℕ) (f : Feeding) (r : Fed)
    → feed f.buf chunk ≡ some r
    → receive now chunk f ≡ some (handle_fed now r f.hub)
unfolding receive
receive-some now chunk f r e = ground (arith, e)

receive_all-next :
    (now b : ℕ) (chunk : List ℕ) (rest : List (ℕ × List ℕ)) (f f' : Feeding)
    → receive now (b ∷ chunk) f ≡ some f'
    → receive_all ((now, b ∷ chunk) ∷ rest) f ≡ receive_all rest f'
unfolding receive_all
receive_all-next now b chunk rest f f' e = ground (arith, e)

receive_all-nil : (f : Feeding) → receive_all [] f ≡ some f
unfolding receive_all
receive_all-nil f = refl

receive_all-end :
    (now : ℕ) (rest : List (ℕ × List ℕ)) (f : Feeding) → receive_all ((now, []) ∷ rest) f ≡ some f
unfolding receive_all
receive_all-end now rest f = refl

feed-split :
    (buf a b : List ℕ) (r s : Fed)
    → feed buf a ≡ some r
    → feed r.buf b ≡ some s
    → feed buf (a ++ b) ≡ some (both r s)
feed-split buf a b r s e e' = feed-append buf a b ∙ ground (arith, e, e')

size_of-append : (a b : List RtcmFrame) → size_of (a ++ b) ≡ size_of a + size_of b
size_of-append [] b = omega arith
size_of-append (fr ∷ a) b = omega (arith, size_of-append a b)

raws-append : (a b : List RtcmFrame) → raws (a ++ b) ≡ raws a ++ raws b
raws-append [] b = refl
raws-append (fr ∷ a) b =
    ap (◌++◌ fr.raw) (raws-append a b) ∙ sym (append_assoc fr.raw (raws a) (raws b))

-- What a list of chunks does to the rovers: with each chunk they are offered some bytes, in all
-- those of the frames.
record Handed (cs : List (ℕ × List ℕ)) (frs : List RtcmFrame) (h h' : Hub) : Type 0 where
  outs : List (ℕ × List ℕ)
  at_times : times outs ≡ read_times cs
  whole : all_bytes outs ≡ raws frs
  rovers : h'.rovers ≡ passed_all outs h.rovers

abbrev Result : List (ℕ × List ℕ) → Feeding → Fed → Type 0
Result cs f r =
    (f' : Feeding) × (receive_all cs f ≡ some f')
    × Grown (length r.frames) r.crc_errors (size_of r.frames) f.hub f'.hub
    × Handed cs r.frames f.hub f'.hub

-- The last chunk, with nothing that is read behind it.
last-Result :
    (now b : ℕ) (chunk : List ℕ) (rest : List (ℕ × List ℕ)) (f : Feeding) (r : Fed)
    → ((f' : Feeding) → receive_all rest f' ≡ some f')
    → read_times rest ≡ []
    → feed f.buf (b ∷ chunk) ≡ some r
    → Result ((now, b ∷ chunk) ∷ rest) f r
last-Result now b chunk rest f r stops none_read e =
    let f' = handle_fed now r f.hub in
    (
      f',
      receive_all-next now b chunk rest f f' (receive-some now (b ∷ chunk) f r e) ∙ stops f',
      (handle_fed-Grown now r f.hub).0,
      record {
        outs = (now, raws r.frames) ∷ [];
        at_times = ap (◌∷◌ now) (sym none_read);
        whole = append-nil (raws r.frames);
        rovers = handle_fed-passed now r f.hub;
      },
    )

-- A chunk and what follows it.
next-Result :
    (now b : ℕ) (chunk : List ℕ) (rest : List (ℕ × List ℕ)) (f : Feeding) (r₁ r₂ : Fed)
    → feed f.buf (b ∷ chunk) ≡ some r₁
    → Result rest (handle_fed now r₁ f.hub) r₂
    → Result ((now, b ∷ chunk) ∷ rest) f (both r₁ r₂)
next-Result now b chunk rest f r₁ r₂ e (f', found, g₂, later) =
    let g₁ = (handle_fed-Grown now r₁ f.hub).0 in
    let f₁ = handle_fed now r₁ f.hub in
    (
      f',
      receive_all-next now b chunk rest f f₁ (receive-some now (b ∷ chunk) f r₁ e) ∙ found,
      record {
        counted = omega (arith, g₁.counted, g₂.counted, length-append r₁.frames r₂.frames);
        refused = omega (arith, g₁.refused, g₂.refused);
        received = omega (arith, g₁.received, g₂.received, size_of-append r₁.frames r₂.frames);
      },
      record {
        outs = (now, raws r₁.frames) ∷ later.outs;
        at_times = ap (◌∷◌ now) later.at_times;
        whole = ap (◌++◌ (raws r₁.frames)) later.whole ∙ sym (raws-append r₁.frames r₂.frames);
        rovers = later.rovers ∙ ap (passed_all later.outs) (handle_fed-passed now r₁ f.hub);
      },
    )

-- What chunks do to the hub, from what `feed` makes of all their bytes at once.
receive_all-Result :
    (now b : ℕ) (chunk : List ℕ) (rest : List (ℕ × List ℕ)) (f : Feeding) (r : Fed)
    → feed f.buf ((b ∷ chunk) ++ joined rest) ≡ some r
    → Result ((now, b ∷ chunk) ∷ rest) f r
receive_all-Result now b chunk [] f r e =
    last-Result now b chunk [] f r receive_all-nil refl
      (ap (feed f.buf) (sym (append-nil (b ∷ chunk))) ∙ e)
receive_all-Result now b chunk ((now', []) ∷ rest) f r e =
    last-Result now b chunk ((now', []) ∷ rest) f r (receive_all-end now' rest) refl
      (ap (feed f.buf) (sym (append-nil (b ∷ chunk))) ∙ e)
receive_all-Result now b chunk ((now', b' ∷ chunk') ∷ rest) f r e =
    let (r₁, e₁) = feed_total f.buf (b ∷ chunk) in
    let kept = (handle_fed-Grown now r₁ f.hub).1 in
    let f₁ = handle_fed now r₁ f.hub in
    let more = (b' ∷ chunk') ++ joined rest in
    let (r₂, e₂) = feed_total f₁.buf more in
    let later = receive_all-Result now' b' chunk' rest f₁ r₂ e₂ in
    let whole : r ≡ both r₁ r₂ = some-injective r (both r₁ r₂) (
      sym e ∙ feed-split f.buf (b ∷ chunk) more r₁ r₂ e₁ (ap (λ u. feed u more) (sym kept) ∙ e₂)) in
    subst (Result ((now, b ∷ chunk) ∷ (now', b' ∷ chunk') ∷ rest) f) (sym whole)
      (next-Result now b chunk ((now', b' ∷ chunk') ∷ rest) f r₁ r₂ e₁ later)

-- The packets' frames, one after the other.
abbrev pub framed : List Packet → List ℕ
framed [] = []
framed (p ∷ ps) = encode p.payload ++ framed ps

decoded-raws : (ps : List Packet) → raws (decoded ps).frames ≡ framed ps
decoded-raws [] = refl
decoded-raws (p ∷ ps) = ap (◌++◌ (encode p.payload)) (decoded-raws ps)

decoded-length : (ps : List Packet) → length (decoded ps).frames ≡ length ps
decoded-length [] = refl
decoded-length (p ∷ ps) = ap suc (decoded-length ps)

decoded-size : (ps : List Packet) → size_of (decoded ps).frames ≡ length (framed ps)
decoded-size [] = refl
decoded-size (p ∷ ps) = omega (arith, decoded-size ps, length-append (encode p.payload) (framed ps))

-- However a source's bytes are cut into chunks, up to the empty one that ends them, for a parser
-- that is new: if they are framed messages with noise between, each is counted once, no error is,
-- and every rover of the hub is offered, chunk by chunk at the times of the chunks, bytes that
-- are together exactly those of the frames in their order.
pub receive_all-wire :
    (ps : List Packet) (noise : List ℕ) (now b : ℕ) (chunk : List ℕ) (rest : List (ℕ × List ℕ))
    (h : Hub)
    → All IsPacket ps
    → IsNoise noise
    → (b ∷ chunk) ++ joined rest ≡ wire ps noise
    → (f : Feeding) × (receive_all ((now, b ∷ chunk) ∷ rest) (record { buf = []; hub = h })
        ≡ some f)
      × (f.hub.rtcm_frames_total ≡ h.rtcm_frames_total + length ps)
      × (f.hub.rtcm_crc_errors_total ≡ h.rtcm_crc_errors_total)
      × (f.hub.rx_bytes ≡ h.rx_bytes + length (framed ps))
      × ((outs : List (ℕ × List ℕ)) × (times outs ≡ now ∷ read_times rest)
          × (all_bytes outs ≡ framed ps)
          × (f.hub.rovers ≡ passed_all outs h.rovers))
receive_all-wire ps noise now b chunk rest h ok quiet e =
    let (f, found, g, handed) =
      receive_all-Result now b chunk rest (record { buf = []; hub = h }) (decoded ps)
        (ap (feed []) e ∙ feed-wire ps noise ok quiet) in
    (
      f,
      found,
      omega (arith, g.counted, decoded-length ps),
      omega (arith, g.refused),
      omega (arith, g.received, decoded-size ps),
      (handed.outs, handed.at_times, handed.whole ∙ decoded-raws ps, handed.rovers),
    )
