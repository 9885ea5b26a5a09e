-- ===== src/Caster/Hub/Fanout.antt =====
-- What a chunk from the source does to each rover and to the hub's total of dropped bytes.
use babilcors.Prelude.{
  ℕ, ◌+◌, ◌≤◌, ◌<◌, ◌≡◌, refl, sym, ap, ◌∙◌, ◌⊎◌, inl, inr, true, false, Option, some, List, [],
  ◌∷◌, ◌++◌, append_assoc, append-nil, ltb, length, map, sum, if◌then◌else◌, arith, Bool-cases,
}
use babilcors.Prelude.Int.{pos_part}
use babilcors.Tiers.{epoch_gate_ok}
use babilcors.Caster.ByteQueue.{ByteQueue, full, stored, put_nowait}
use babilcors.Caster.Hub.{
  Session, Hub, put_chunk, offer, offer_all, on_source_data, record_dropped_bytes,
}

-- The hub's total only grows by what is counted.
record_dropped_bytes-total :
    (n : ℕ) (h : Hub)
    → ((record_dropped_bytes n h).dropped_bytes_total ≡ h.dropped_bytes_total + n)
      × ((record_dropped_bytes n h).rovers ≡ h.rovers)
      × ((record_dropped_bytes n h).rx_bytes ≡ h.rx_bytes)
      × ((record_dropped_bytes n h).source_addr ≡ h.source_addr)
unfolding record_dropped_bytes
record_dropped_bytes-total n h = ground arith

-- After the loop: every rover has been offered the chunk once, in its place.
pub record Offered (chunk : List ℕ) (now : ℕ) (ss : List Session) (h h' : Hub) : Type 0 where
  pub rovers : h'.rovers ≡ h.rovers ++ map (λ s. (offer chunk now s).0) ss
  pub dropped :
      h'.dropped_bytes_total ≡ h.dropped_bytes_total + sum (map (λ s. (offer chunk now s).1) ss)
  pub received : h'.rx_bytes ≡ h.rx_bytes
  pub source : h'.source_addr ≡ h.source_addr

offer_all-Offered :
    (chunk : List ℕ) (now : ℕ) (ss : List Session) (h : Hub)
    → Offered chunk now ss h (offer_all chunk now ss h)
unfolding offer_all
offer_all-Offered chunk now [] h = record {
  rovers = sym (append-nil h.rovers);
  dropped = omega arith;
  received = refl;
  source = refl;
}
offer_all-Offered chunk now (s ∷ ss) h =
    let s' = (offer chunk now s).0 in
    let n = (offer chunk now s).1 in
    let h₁ : Hub = record h { rovers = h.rovers ++ s' ∷ [] } in
    let (total, kept, rx, src) = record_dropped_bytes-total n h₁ in
    let after = offer_all-Offered chunk now ss (record_dropped_bytes n h₁) in
    record {
      rovers =
          after.rovers
          ∙ ap (λ l. l ++ map (λ r. (offer chunk now r).0) ss) kept
          ∙ append_assoc h.rovers (s' ∷ []) (map (λ r. (offer chunk now r).0) ss);
      dropped = omega (arith, after.dropped, total);
      received = after.received ∙ rx;
      source = after.source ∙ src;
    }

-- A chunk that is not empty is counted once and offered to every rover once, in place; the hub's
-- total of dropped bytes grows by what the rovers dropped, and the source stays.
pub on_source_data-Offered :
    (b : ℕ) (rest : List ℕ) (now : ℕ) (h : Hub)
    → ((on_source_data (b ∷ rest) now h).rovers ≡ map (λ s. (offer (b ∷ rest) now s).0) h.rovers)
      × ((on_source_data (b ∷ rest) now h).dropped_bytes_total
          ≡ h.dropped_bytes_total + sum (map (λ s. (offer (b ∷ rest) now s).1) h.rovers))
      × ((on_source_data (b ∷ rest) now h).rx_bytes ≡ h.rx_bytes + length (b ∷ rest))
      × ((on_source_data (b ∷ rest) now h).source_addr ≡ h.source_addr)
unfolding on_source_data
on_source_data-Offered b rest now h =
    let h₁ : Hub = record h { rx_bytes = h.rx_bytes + length (b ∷ rest); rovers = [] } in
    let after = offer_all-Offered (b ∷ rest) now h.rovers h₁ in
    (after.rovers, after.dropped, after.received, after.source)

-- What can become of a chunk at one rover.
pub data Outcome (chunk : List ℕ) (now : ℕ) (s s' : Session) (n : ℕ) : Type 0 where
  held :
      epoch_gate_ok s.ep_last_ts s.tier.max_epochs_per_minute now ≡ false
      → s' ≡ s
      → n ≡ 0
      → Outcome chunk now s s' n
  queued :
      epoch_gate_ok s.ep_last_ts s.tier.max_epochs_per_minute now ≡ true
      → s.queue.closed ≡ false
      → s.queue.bytes + length chunk ≤ s.queue.max
      → s'.queue.buf ≡ s.queue.buf ++ chunk ∷ []
      → s'.queue.bytes ≡ s.queue.bytes + length chunk
      → s'.dropped_bytes ≡ s.dropped_bytes
      → n ≡ 0
      → Outcome chunk now s s' n
  dropped :
      epoch_gate_ok s.ep_last_ts s.tier.max_epochs_per_minute now ≡ true
      → (s.queue.closed ≡ true) ⊎ (s.queue.max < s.queue.bytes + length chunk)
      → s'.queue ≡ s.queue
      → s'.dropped_bytes ≡ s.dropped_bytes + length chunk
      → n ≡ length chunk
      → Outcome chunk now s s' n

put_nowait-cases :
    (chunk : List ℕ) (q : ByteQueue)
    → 0 < q.max
    → ((put_nowait chunk q ≡ full) × ((q.closed ≡ true) ⊎ (q.max < q.bytes + length chunk)))
      ⊎ ((q.closed ≡ false)
          × (q.bytes + length chunk ≤ q.max)
          × (put_nowait chunk q
              ≡ stored (record q { buf = q.buf ++ chunk ∷ []; bytes = q.bytes + length chunk })))
unfolding put_nowait
put_nowait-cases chunk q pos = ground arith

put_chunk-full :
    (chunk : List ℕ) (s : Session)
    → put_nowait chunk s.queue ≡ full
    → put_chunk chunk s
      ≡ (record s { dropped_bytes = s.dropped_bytes + length chunk }, length chunk)
unfolding put_chunk
put_chunk-full chunk s e = ground (arith, e)

put_chunk-stored :
    (chunk : List ℕ) (s : Session) (q : ByteQueue)
    → put_nowait chunk s.queue ≡ stored q
    → put_chunk chunk s ≡ (record s { queue = q }, 0)
unfolding put_chunk
put_chunk-stored chunk s q e = ground (arith, e)

put_chunk-Outcome :
    (chunk : List ℕ) (now : ℕ) (s : Session) (last : Option ℕ)
    → 0 < s.queue.max
    → epoch_gate_ok s.ep_last_ts s.tier.max_epochs_per_minute now ≡ true
    → Outcome chunk now s
        (put_chunk chunk (record s { ep_last_ts = last })).0
        (put_chunk chunk (record s { ep_last_ts = last })).1
put_chunk-Outcome chunk now s last pos e =
    let s₁ : Session = record s { ep_last_ts = last } in
    elim (put_nowait-cases chunk s.queue pos) [
      | inl (f, why) ↦ rw (put_chunk-full chunk s₁ f) (dropped e why refl refl refl)
      | inr (opened, room, f) ↦
          let q : ByteQueue = record s.queue {
            buf = s.queue.buf ++ chunk ∷ [];
            bytes = s.queue.bytes + length chunk;
          } in
          rw (put_chunk-stored chunk s₁ q f) (queued e opened room refl refl refl refl)
    ]

-- A chunk that is offered to a rover whose queue has a bound is held back by the epoch gate, or
-- is last in the rover's queue, or is counted as dropped by the rover and by the hub, since the
-- queue is closed or has no room.
pub offer-Outcome :
    (chunk : List ℕ) (now : ℕ) (s : Session)
    → 0 < s.queue.max
    → Outcome chunk now s (offer chunk now s).0 (offer chunk now s).1
unfolding offer
offer-Outcome chunk now s pos =
    elim (Bool-cases (epoch_gate_ok s.ep_last_ts s.tier.max_epochs_per_minute now)) [
      | inl e ↦ rw e (
          put_chunk-Outcome chunk now s
            (if ltb 0 (pos_part s.tier.max_epochs_per_minute) then some now else s.ep_last_ts) pos
            e)
      | inr e ↦ rw e (held e refl refl)
    ]
